-- ===== src/Engine/Examples.antt =====
-- Calls of src/core/engine.ts at a concrete key.
use watukuy.Base.{
  ◌⊎◌, or_else, ℕ, true, false, String, Option, none, some, [], ◌∷◌, ◌≡◌, refl, ◌≢◌, ◌||◌, leb,
  arith, elem, string_eq,
}
use watukuy.Base.Map
use watukuy.Types.{PKey, pkey_eq, Result, ok, err}
use watukuy.Types.Samples.{orders_poller, orders_key, order_item, lease_a}
use watukuy.Store.{new_store, record_of, load_state, save_state_unfenced}
use watukuy.Store.Rows.{empty_record}
use watukuy.Runner.Examples.{page_deps, snapshot, api, start}
use watukuy.Runner.Key.{KeyDeps, run_key, RunKeyResult, leased}
use watukuy.Engine.Calls.{stopped_run}
use watukuy.Engine.Partitions.{Listed, listed, refresh_partitions, check_keys, key_of}
use watukuy.Engine.Tick.{next_run}
use watukuy.Engine.Wakes.{next_run-waits_for, waits_for, retry_due}
use watukuy.Engine.Gone.{Gone, refresh_partitions_lem, returned-stops}
use watukuy.Engine.{Engine, backfill}

abbrev engine : Engine
engine = record {
  store = record {
    records =
        (orders_key, record empty_record { lease = some lease_a; items = ("o1", order_item) ∷ [] })
        ∷ [];
  };
  next_due = [];
}

abbrev raw : Option String → Result String
raw none = ok "null"
raw (some text) = ok text

abbrev lane_text : Result Engine → Option (Option String × Option ℕ)
unfolding load_state Map.get
lane_text (ok e) = elim (load_state e.store orders_key) [
  | none ↦ none
  | some state ↦ elim state.lanes.backfill [
    | none ↦ none
    | some lane ↦ some (lane.cursor, Map.get orders_key e.next_due)
  ]
]
lane_text (err _) = none

-- The backfill starts where it is told, and its key is due.
backfill_queued :
    lane_text (
      backfill orders_poller orders_key 30 raw false
        (record { from = some "t0"; to = none; force = false })
        engine)
    ≡ some (some "t0", some 30)
unfolding backfill load_state Map.get save_state_unfenced Map.set
backfill_queued = refl

backfill_refused :
    lane_text (
      backfill orders_poller orders_key 30 raw true
        (record { from = some "t0"; to = none; force = false })
        engine)
    ≡ none
unfolding backfill lane_text
backfill_refused = refl

abbrev tenants : Listed
tenants = record { partitioned = true; partitions = "t1" ∷ "t2" ∷ []; loaded_at = some 10 }

abbrev first : Engine
first = record { store = new_store; next_due = [] }

-- The tenant t2 is gone, and t3 is new.
refresh_partitions_example :
    (after : Listed × Engine) × (refresh_partitions "orders" 90 false 50
        (listed ("t1" ∷ "t3" ∷ []))
        tenants
        first
      ≡ ok after)
    × (after.0.partitions ≡ "t1" ∷ "t3" ∷ [])
    × ((p : String)
        → elem p ("t1" ∷ "t3" ∷ []) ≡ false
        → elem p ("t1" ∷ "t2" ∷ []) ≡ true
        → Gone "orders" 90 after.1 (key_of "orders" p))
    × ((p : String)
        → elem p ("t1" ∷ "t3" ∷ []) ≡ true
        → (record_of after.1.store (key_of "orders" p) ≡ record_of new_store (key_of "orders" p))
          × (Map.get (key_of "orders" p) after.1.next_due
              ≡ some (or_else (Map.get {V = ℕ} (key_of "orders" p) []) 90)))
    × ((k : PKey)
        → ((p : String)
            → (elem p ("t1" ∷ "t3" ∷ []) ≡ true) ⊎ (elem p ("t1" ∷ "t2" ∷ []) ≡ true)
            → key_of "orders" p ≢ k)
        → (record_of after.1.store k ≡ record_of new_store k)
          × (Map.get k after.1.next_due ≡ Map.get {V = ℕ} k []))
unfolding check_keys elem
refresh_partitions_example =
    refresh_partitions_lem "orders" 90 false 50 ("t1" ∷ "t3" ∷ []) tenants first refl refl refl

-- t2 is listed again.
abbrev without_t2 : Engine
without_t2 = record {
  store = record {
    records =
        (
          key_of "orders" "t2",
          record empty_record { state = some (record start { paused = true }) },
        )
        ∷ [];
  };
  next_due = [];
}

abbrev t2_deps : KeyDeps
t2_deps = record {
  page = record page_deps { key = key_of "orders" "t2" };
  instance_id = "a";
  dispatch_batch_size = 50;
  has_consumer = false;
  lease_ttl_ms = 1000;
  deadline = none;
  force = false;
}

returned-stops_example :
    (after : Listed × Engine) × (refresh_partitions "orders" 90 false 50
        (listed ("t1" ∷ "t2" ∷ []))
        tenants
        without_t2
      ≡ ok after)
    × (Map.has (key_of "orders" "t2") after.1.next_due ≡ true)
    × (run_key (api 0) snapshot (api 0) snapshot t2_deps after.1.store 0
        ≡ stopped_run (api 0) snapshot (api 0) snapshot t2_deps after.1.store 0)
unfolding check_keys elem load_state Map.get
returned-stops_example =
    returned-stops "orders" 90 (api 0) snapshot (api 0) snapshot t2_deps 0 50 ("t1" ∷ "t2" ∷ [])
      tenants without_t2 "t2" refl refl refl refl refl
      ((record start { paused = true }, refl, refl), refl)

-- A run that could not take the lease, with an event that waits for its retry at 25.
abbrev leased_run : RunKeyResult
leased_run = record {
  ran = false;
  reason = some leased;
  results = [];
  state = some start;
  next_retry_at = some 25;
  lease_lost = false;
  drained_before = 0;
}

next_run-waits_for_example : leb (next_run orders_poller 30_000 leased_run 20) 25 ≡ (
    waits_for orders_poller 30_000 leased_run 20 leased_run.reason 25
    || retry_due leased_run.next_retry_at 25)
next_run-waits_for_example = next_run-waits_for orders_poller 30_000 leased_run 20 25 (omega arith)
