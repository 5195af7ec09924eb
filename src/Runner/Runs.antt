-- ===== src/Runner/Runs.antt =====
-- Runs of `runKey` of src/core/runner.ts at a concrete key, and its theorem there.
use watukuy.Base.{
  ℕ, true, false, Bool, Option, none, some, String, ◌≡◌, refl, arith, elem, string_eq, length,
}
use watukuy.Base.Map
use watukuy.Base.Text.{str_leb}
use watukuy.Base.Sort.{sort}
use watukuy.Base.Decimal.{decimal}
use watukuy.Types.{Lease, Result, ok}
use watukuy.Types.Samples.{orders_key, lease_a}
use watukuy.Validate.{validate_items}
use watukuy.Diff.{prepare_candidates, diff_candidates, detect_deletes}
use watukuy.Diff.Canonicalize.{hash_value, serialize_object, json_string, sha256_hex}
use watukuy.Diff.EventId.{event_id}
use watukuy.Scheduler.{is_due}
use watukuy.Store.Queries.{load_versions, stream_identities, count_pending}
use watukuy.Store.{
  MemoryStore, record_of, commit_poll, save_state, renew_lease, acquire_lease, release_lease,
}
use watukuy.Store.Rows.{holds}
use watukuy.Dispatcher.Loop.{drain_outbox}
use watukuy.Runner.Outcome.{finish_cycle, fail_cycle}
use watukuy.Runner.Key.{Reason, leased, stopped, RunKeyResult, KeyDeps, run_key}
use watukuy.Runner.Release.{run_key-GivesBack}
use watukuy.Runner.Examples.{page_deps, snapshot, api, stored}

abbrev deps_of : String → KeyDeps
deps_of instance_id = record {
  page = page_deps;
  instance_id = instance_id;
  dispatch_batch_size = 50;
  has_consumer = false;
  lease_ttl_ms = 1000;
  deadline = none;
  force = false;
}

abbrev Summary : Type 0
Summary = Bool × Option Reason × ℕ × Option Lease

abbrev summary : Option (Result RunKeyResult × MemoryStore × ℕ) → Option Summary
summary (some (ok r, s, w)) =
    some (r.ran, r.reason, length r.results, (record_of s orders_key).lease)
summary _ = none

-- The owner of the lease runs the live lane, and gives the lease back.
owner_runs :
    summary (run_key (api 100) snapshot (api 100) snapshot (deps_of "a") stored 0)
    ≡ some (true, none, 1, none)
unfolding run_key Map.get is_due acquire_lease Map.set validate_items prepare_candidates
    load_versions hash_value serialize_object sort str_leb commit_poll diff_candidates json_string
    renew_lease Map.delete_all Map.set_all record_of stream_identities detect_deletes elem
    save_state drain_outbox count_pending event_id decimal sha256_hex finish_cycle Map.delete
    release_lease
owner_runs = refl

-- Another instance is refused while the lease lasts.
other_waits :
    summary (run_key (api 100) snapshot (api 100) snapshot (deps_of "b") stored 0)
    ≡ some (false, some leased, 0, some lease_a)
unfolding run_key Map.get is_due acquire_lease Map.set
other_waits = refl

-- A run whose signal is aborted at once gives the lease back too.
aborted_run :
    summary (run_key (api 0) snapshot (api 0) snapshot (deps_of "a") stored 0)
    ≡ some (true, some stopped, 1, none)
unfolding run_key Map.get is_due acquire_lease Map.set validate_items prepare_candidates
    load_versions hash_value serialize_object sort str_leb commit_poll diff_candidates json_string
    renew_lease Map.delete_all Map.set_all record_of stream_identities detect_deletes elem
    save_state drain_outbox count_pending event_id decimal sha256_hex finish_cycle Map.delete
    release_lease fail_cycle
aborted_run = refl

-- The same key with a consumer.
abbrev consumed_deps : KeyDeps
consumed_deps = record (deps_of "a") { has_consumer = true }

run_key-GivesBack_example :
    (a : Result RunKeyResult × MemoryStore × ℕ) × (run_key
        (api 100)
        snapshot
        (api 100)
        snapshot
        consumed_deps
        stored
        0
      ≡ some a)
    × ((lease : Lease)
        → (acquire_lease stored orders_key "a" 1000 20).0 ≡ some lease
        → holds (record_of a.1 orders_key) lease ≡ false)
unfolding record_of Map.get
run_key-GivesBack_example =
    run_key-GivesBack (api 100) snapshot (api 100) snapshot consumed_deps stored 0 (ground arith) tt
