-- ===== src/Runner/Applied.antt =====
-- The theorems on src/core/runner.ts at the pages of Examples.
use watukuy.Base.{
  map, ℕ, true, false, none, some, String, [], ◌∷◌, ◌≡◌, refl, elem, if◌then◌else◌, string_eq,
}
use watukuy.Base.Map
use watukuy.Types.{
  Value, string, number, nat, object, member, no_members, Lane, live, LaneCursor, PollerState,
  ItemRow, OutboxRow, Result, ok, err, pkey_eq,
}
use watukuy.Types.Samples.{orders_key, order, lease_a}
use watukuy.Base.Sort.{sort}
use watukuy.Base.Text.{str_leb}
use watukuy.Base.Decimal.{decimal}
use watukuy.Validate.{validate_items}
use watukuy.Diff.{prepare_candidates, diff_candidates}
use watukuy.Diff.Canonicalize.{
  hash_value, serialize_number, serialize_object, json_string, sha256_hex,
}
use watukuy.Store.Queries.{load_versions}
use watukuy.Store.{MemoryStore, record_of, commit_poll}
use watukuy.Store.Rows.{holds}
use watukuy.Dispatcher.Outbox.{IsOutbox}
use watukuy.Runner.Lanes.{no_cursor}
use watukuy.Runner.Page.{PageCommit, process_page}
use watukuy.Runner.Cycle.{page, Api, Cycle}
use watukuy.Runner.Pages.{between, page_loop, loop_fuel, commit_page}
use watukuy.Runner.Finish.{missing_items, delete_batch}
use watukuy.Runner.Endings.{page_loop-Returns}
use watukuy.Runner.Events.{IsNumbered, process_page_lem}
use watukuy.Runner.Deletes.{delete_batch_lem}
use watukuy.Runner.Repeated.{parked_id, commit_page-process_page}
use watukuy.Runner.Filed.{commit_page-IsOutbox, outbox_of}
use watukuy.Runner.Examples.{page_deps, deps, snapshot, page_of, api, start, stored, numbered}

-- An API whose pages never end.
abbrev endless : Api ℕ (Unit {0})
endless = record (api 100) { fetch = λ lane from p n w. (page (page_of "o1"), w) }

abbrev fresh : Cycle ℕ (Unit {0})
fresh = record {
  store = stored;
  world = 0;
  state = start;
  cursor = tt;
  sequence = 7;
  pages = 0;
  items = 0;
  created = 0;
  updated = 0;
  deleted = 0;
  truncated = false;
  seen = "o1" ∷ [];
  last_drain = none;
  halted = false;
  done = false;
  hung = false;
}

page_loop-Returns_example :
    (r : Result (Unit {0}) × Cycle ℕ (Unit {0})) × (page_loop endless snapshot deps live no_cursor
        false none
        (loop_fuel endless snapshot deps live)
        between
        fresh
      ≡ some r)
page_loop-Returns_example = page_loop-Returns endless snapshot deps live no_cursor false none fresh

abbrev two_orders : PageCommit
two_orders =
    elim (process_page page_deps numbered live 20 (order "o1" "open" ∷ order "o2" "open" ∷ []) 7
      true false "null") [
        | ok commit ↦ commit
        | err _ ↦ record {
          upserts = [];
          events = [];
          parked = [];
          sequence = 0;
          created_count = 0;
          updated_count = 0;
        }
      ]

two_orders_ok :
    process_page page_deps numbered live 20
      (order "o1" "open" ∷ order "o2" "open" ∷ [])
      7
      true
      false
      "null"
    ≡ ok two_orders
unfolding process_page validate_items prepare_candidates Map.set Map.get load_versions hash_value
    serialize_number serialize_object sort str_leb diff_candidates json_string record_of decimal
    sha256_hex
two_orders_ok = refl

process_page_example : IsNumbered 7 two_orders
process_page_example =
    process_page_lem page_deps numbered live 20 (order "o1" "open" ∷ order "o2" "open" ∷ []) 7 true
      false "null" two_orders two_orders_ok

delete_batch_example :
    Map.get "o2"
      (record_of
        (commit_poll stored orders_key lease_a (
          delete_batch
            (api 100)
            snapshot
            deps
            live
            (missing_items stored orders_key ("o1" ∷ []))
            []
            fresh)).1
        orders_key).items
    ≡ (if elem {K = String} "o2" ("o1" ∷ [])
        then Map.get "o2" (record_of stored orders_key).items
        else none)
unfolding record_of Map.get holds
delete_batch_example = delete_batch_lem (api 100) snapshot deps live fresh [] "o2" refl

commit_page-IsOutbox_example : IsOutbox (
    outbox_of
      (api 100)
      snapshot
      deps
      live
      (commit_page (api 100) snapshot deps live no_cursor false two_orders fresh).1.store)
unfolding record_of Map.get holds
commit_page-IsOutbox_example =
    commit_page-IsOutbox (api 100) snapshot deps live no_cursor false true fresh numbered 20 7
      (order "o1" "open" ∷ order "o2" "open" ∷ []) "null" two_orders two_orders_ok tt

-- The two orders of the page, fetched again by the backfill.
abbrev fetched_again : MemoryStore
fetched_again =
    (commit_page (api 100) snapshot deps live no_cursor false two_orders
      (record fresh { store = numbered })).1.store

commit_page-process_page_example :
    (again : PageCommit) × (process_page page_deps fetched_again watukuy.Types.backfill 99
        (order "o1" "open" ∷ order "o2" "open" ∷ [])
        9
        false
        false
        "null"
      ≡ ok again)
    × (again.events ≡ [])
    × (again.upserts ≡ [])
    × (again.sequence ≡ 9)
    × (map parked_id again.parked ≡ map parked_id two_orders.parked)
unfolding record_of Map.get holds validate_items
commit_page-process_page_example =
    commit_page-process_page (api 100) snapshot deps live watukuy.Types.backfill no_cursor true
      false false (record fresh { store = numbered }) 20 99 7 9
      (order "o1" "open" ∷ order "o2" "open" ∷ []) "null" "null" two_orders two_orders_ok refl
      (("o1", refl), (("o2", refl), tt))
