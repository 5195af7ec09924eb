-- ===== src/Runner/Examples.antt =====
-- Cycles of src/core/runner.ts at concrete pages, and its theorems there.
use watukuy.Base.{
  ℕ, ◌+◌, true, false, Option, none, some, String, List, [], ◌∷◌, ◌≡◌, refl, leb, nat_eqb, elem,
  if◌then◌else◌, string_eq,
}
use watukuy.Base.Map
use watukuy.Base.Text.{codes}
use watukuy.Types.{
  Value, string, number, nat, object, member, no_members, Lane, live, LaneCursor, PollerState,
  ItemRow, OutboxRow, Result, ok, err, pkey_eq,
}
use watukuy.Types.Samples.{orders_poller, orders_key, order, order_item, lease_a}
use watukuy.Base.Sort.{sort}
use watukuy.Base.Text.{str_leb}
use watukuy.Base.Decimal.{decimal}
use watukuy.Validate.{validate_items}
use watukuy.Diff.{prepare_candidates, diff_candidates, detect_deletes}
use watukuy.Diff.Canonicalize.{
  hash_value, serialize_number, serialize_object, json_string, sha256_hex,
}
use watukuy.Diff.EventId.{event_id}
use watukuy.Store.Queries.{load_versions, stream_identities, count_pending}
use watukuy.Dispatcher.Loop.{drain_outbox}
use watukuy.Store.{MemoryStore, record_of, commit_poll, save_state, renew_lease}
use watukuy.Store.Rows.{empty_record}
use watukuy.Runner.Page.{PageDeps, PageCommit, process_page}
use watukuy.Runner.Cycle.{Page, Pull, page, exhausted, Strategy, Api, CycleDeps, Cycle}
use watukuy.Runner.Outcome.{CycleResult, run_cycle, finish_cycle}

abbrev pub page_deps : PageDeps
page_deps = record {
  poller = orders_poller;
  schema = none;
  key = orders_key;
  digest = codes;
  json_parse = λ text. none;
  json_stringify = λ value. none;
}

abbrev pub deps : CycleDeps
deps = record {
  page = page_deps;
  lease = lease_a;
  dispatch_batch_size = 50;
  has_consumer = false;
  lease_ttl_ms = 1000;
  deadline = none;
}

-- A snapshot has no cursor.
abbrev pub snapshot : Strategy (Unit {0})
snapshot = record {
  full_scan = true;
  initial = tt;
  serialize = λ cursor. "null";
  deserialize = λ text. ok tt;
  for_fetch = λ cursor now. ok tt;
  advance = λ cursor input. ok (record {
    cursor = tt;
    done = elim input.has_more [ some true ↦ false | _ ↦ true ];
    items = input.items;
  });
  on_cycle_complete = λ cursor. cursor;
  reached = λ cursor target. ok true;
}

abbrev pub page_of : String → Page
page_of id = record { items = order id "open" ∷ []; cursor = none; has_more = some true }

abbrev answers : ℕ → Pull
answers n =
    if nat_eqb n 0
    then page (page_of "o1")
    else if nat_eqb n 1
    then page (page_of "o2")
    else if nat_eqb n 2
    then page (page_of "o3")
    else exhausted

-- A fetch function that gives three pages, one to an order; the world counts the pages, and the
-- signal is aborted after so many.
abbrev pub api : ℕ → Api ℕ (Unit {0})
api limit = record {
  dispatch = record {
    deliver = λ e w. (ok tt, w);
    now = λ w. 20 + w;
    random = λ w. (record { num = 1; den = 2 }, w);
    aborted = λ w. leb limit w;
    turn = λ n w. (0, w);
  };
  fetch = λ lane from p n w. (answers n, w + 1);
  saw_not_modified = λ w. false;
  rate_limit = λ w. none;
}

abbrev pub start : PollerState
start = record {
  lanes = record { live = none; backfill = none; reconcile = none; replay = none };
  schedule = record {
    next_due_at = none;
    interval_ms = none;
    consecutive_failures = 0;
    circuit = watukuy.Types.closed;
    circuit_opened_at = none;
    throttled_until = none;
    rate_limit = none;
    last_poll_at = none;
    last_poll = none;
    last_error = none;
  };
  paused = false;
  schema_version = none;
  sequence = 7;
  created_at = 1;
  updated_at = 1;
}

abbrev row_of : String → ItemRow
row_of id = record order_item { identity = id }

abbrev pub stored : MemoryStore
stored = record {
  records =
      (
        orders_key,
        record empty_record {
          lease = some lease_a;
          epoch_counter = 1;
          items = ("o1", row_of "o1") ∷ ("o2", row_of "o2") ∷ ("o3", row_of "o3") ∷ [];
        },
      )
      ∷ [];
}

abbrev kept_of : Option (Result CycleResult × Cycle ℕ (Unit {0})) → Option (ℕ × List String)
kept_of (some (ok r, c)) = some (c.deleted, Map.keys (record_of c.store orders_key).items)
kept_of _ = none

-- A scan that sees all three orders deletes none.
whole_scan :
    kept_of (run_cycle (api 100) snapshot deps live start 0 stored 0)
    ≡ some (0, "o1" ∷ "o2" ∷ "o3" ∷ [])
unfolding run_cycle validate_items prepare_candidates Map.set Map.get load_versions hash_value
    serialize_object sort str_leb commit_poll diff_candidates json_string renew_lease Map.delete_all
    Map.set_all record_of stream_identities detect_deletes elem save_state drain_outbox
    count_pending event_id decimal sha256_hex finish_cycle Map.delete
whole_scan = refl

-- A scan whose signal is aborted after its second page deletes the order of the third.
aborted_scan :
    kept_of (run_cycle (api 2) snapshot deps live start 0 stored 0) ≡ some (1, "o1" ∷ "o2" ∷ [])
unfolding run_cycle validate_items prepare_candidates Map.set Map.get load_versions hash_value
    serialize_object sort str_leb commit_poll diff_candidates json_string renew_lease Map.delete_all
    Map.set_all record_of stream_identities detect_deletes elem save_state drain_outbox
    count_pending event_id decimal sha256_hex finish_cycle Map.delete
aborted_scan = refl

-- The store has a row for order 5, but it is not found under the number that the item gives: the order
-- is announced as new, as it will be by each poll.
abbrev pub numbered : MemoryStore
numbered = record {
  records =
      (orders_key, record empty_record { lease = some lease_a; items = ("5", row_of "5") ∷ [] })
      ∷ [];
}

abbrev order_five : Value → List Value
order_five id = object (member "id" id no_members) ∷ []

abbrev created_by : Result PageCommit → Option (ℕ × ℕ)
created_by (ok commit) = some (commit.created_count, commit.updated_count)
created_by (err _) = none

number_is_new :
    created_by
      (process_page page_deps numbered live 20 (order_five (number (nat 5))) 7 true false "null")
    ≡ some (1, 0)
unfolding process_page validate_items prepare_candidates Map.set Map.get load_versions hash_value
    serialize_number serialize_object sort str_leb diff_candidates json_string record_of decimal
    sha256_hex
number_is_new = refl

string_is_known :
    created_by
      (process_page page_deps numbered live 20 (order_five (string "5")) 7 true false "null")
    ≡ some (0, 1)
unfolding process_page validate_items prepare_candidates Map.set Map.get load_versions hash_value
    serialize_number serialize_object sort str_leb diff_candidates json_string record_of decimal
    sha256_hex
string_is_known = refl
