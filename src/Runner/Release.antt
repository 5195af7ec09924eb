-- ===== src/Runner/Release.antt =====
-- src/core/runner.ts: `runKey` ends, and gives its lease back, however it ends.
use watukuy.Base.{
  sym, subst, or_else, Bool, true, false, Option, none, some, ◌≡◌, refl, ap, inl, inr, ==-refl,
  arith, Bool-cases,
}
use watukuy.Types.{PKey, pkey_eq, PollerState, Lease, live, backfill, reconcile, Result, ok, err}
use watukuy.Store.{MemoryStore, record_of, acquire_lease, release_lease, taken}
use watukuy.Store.Rows.{holds, KeyRecord}
use watukuy.Store.Calls.{releases, acquires, step}
use watukuy.Store.Fencing.{record_of-step, step_rule}
use watukuy.Store.Epochs.{IsFenced, acquire_lease-exclusive}
use watukuy.Dispatcher.{Drain, DrainResult}
use watukuy.Runner.Cycle.{Strategy, Api, CycleDeps, Cycle}
use watukuy.Runner.Outcome.{CycleResult}
use watukuy.Runner.CycleEnds.{run_cycle-Ended}
use watukuy.Runner.Writes.{save_state-IsOutbox}
use watukuy.Dispatcher.Outbox.{IsOutbox}
use watukuy.Dispatcher.Endings.{drain_outbox-IsOutbox}
use watukuy.Runner.Key
use watukuy.Runner.Key.{
  RunKeyResult, KeyDeps, KeyRun, then_lane, lane_ran, live_lane, reconcile_lane, backfill_lane,
  run_lanes, runs_live, runs_reconcile, runs_backfill, halt_key, halted_lanes, after_first_drain,
  unless_paused, serve, first_drained, first_dispatcher, saved_halt, when_due, under_lease,
  released, with_lease, run_key, cycle_deps, probed,
}

release_lease-refused :
    (s : MemoryStore) (key : PKey) (lease : Lease)
    → holds (record_of (release_lease s key lease) key) lease ≡ false
unfolding holds
release_lease-refused s key lease =
    unfold step in rw (record_of-step s key key (releases lease)) (rw (==-refl key) (ground arith))

-- The run has a result, with the rows of the outbox filed under their events.
abbrev Runs : {W : Type 0} → PKey → Option (Result Bool × KeyRun W) → Type 0
Runs {W} key o =
    (a : Result Bool × KeyRun W) × (o ≡ some a) × IsOutbox (record_of a.1.store key).outbox

module _ {W : Type 0} (key : PKey) where
  lane_ran-Runs :
      {C : Type 0} (k : KeyRun W) (o : Option (Result CycleResult × Cycle W C))
      → ((r : Result CycleResult × Cycle W C) × (o ≡ some r)
          × IsOutbox (record_of r.1.store key).outbox)
      → Runs key (lane_ran k o)
  lane_ran-Runs {C = C} k o (r, e, f) = subst (λ x. Runs key (lane_ran k x)) (sym e) (by_result r f)
    where
      by_result :
          (q : Result CycleResult × Cycle W C)
          → IsOutbox (record_of q.1.store key).outbox
          → Runs key (lane_ran k (some q))
      by_result (err thrown, c) f = (_, refl, f)
      by_result (ok a, c) f = (_, refl, f)

  then_lane-Runs :
      (o : Option (Result Bool × KeyRun W)) (next : KeyRun W → Option (Result Bool × KeyRun W))
      → Runs key o
      → ((k : KeyRun W) → IsOutbox (record_of k.store key).outbox → Runs key (next k))
      → Runs key (then_lane o next)
  then_lane-Runs o next (r, e, f) h =
      subst (λ x. Runs key (then_lane x next)) (sym e) (by_result r f)
    where
      by_result :
          (q : Result Bool × KeyRun W)
          → IsOutbox (record_of q.1.store key).outbox
          → Runs key (then_lane (some q) next)
      by_result (err thrown, k) f = (_, refl, f)
      by_result (ok true, k) f = (_, refl, f)
      by_result (ok false, k) f = h k f

module _ {W C R : Type 0} (api : Api W C) (strategy : Strategy C) (reconcile_api : Api W R)
    (reconcile_strategy : Strategy R) (deps : KeyDeps) where
  abbrev lane_deps : Lease → CycleDeps
  lane_deps = cycle_deps api strategy reconcile_api reconcile_strategy deps

  live_lane-Runs :
      (lease : Lease) (halted : Bool) (k : KeyRun W)
      → IsOutbox (record_of k.store deps.page.key).outbox
      → Runs deps.page.key
          (live_lane api strategy reconcile_api reconcile_strategy deps lease halted k)
  unfolding live_lane
  live_lane-Runs lease halted k o =
      elim (Bool-cases (runs_live api strategy reconcile_api reconcile_strategy deps halted k)) [
        | inl t ↦ rw t (
            lane_ran-Runs deps.page.key k _ (
              run_cycle-Ended api strategy (lane_deps lease) live
                (probed api strategy reconcile_api reconcile_strategy deps k)
                (api.dispatch.now k.world) k.store k.world o))
        | inr f ↦ rw f (_, refl, o)
      ]

  reconcile_lane-Runs :
      (lease : Lease) (halted : Bool) (k : KeyRun W)
      → IsOutbox (record_of k.store deps.page.key).outbox
      → Runs deps.page.key
          (reconcile_lane api strategy reconcile_api reconcile_strategy deps lease halted k)
  unfolding reconcile_lane
  reconcile_lane-Runs lease halted k o =
      elim (Bool-cases
        (runs_reconcile api strategy reconcile_api reconcile_strategy deps halted k)) [
          | inl t ↦ rw t (
              lane_ran-Runs deps.page.key k _ (
                run_cycle-Ended reconcile_api reconcile_strategy (lane_deps lease) reconcile k.state
                  (api.dispatch.now k.world) k.store k.world o))
          | inr f ↦ rw f (_, refl, o)
        ]

  backfill_lane-Runs :
      (lease : Lease) (halted : Bool) (k : KeyRun W)
      → IsOutbox (record_of k.store deps.page.key).outbox
      → Runs deps.page.key
          (backfill_lane api strategy reconcile_api reconcile_strategy deps lease halted k)
  unfolding backfill_lane
  backfill_lane-Runs lease halted k o =
      elim (Bool-cases
        (runs_backfill api strategy reconcile_api reconcile_strategy deps halted k)) [
          | inl t ↦ rw t (
              lane_ran-Runs deps.page.key k _ (
                run_cycle-Ended api strategy (lane_deps lease) backfill k.state
                  (api.dispatch.now k.world) k.store k.world o))
          | inr f ↦ rw f (_, refl, o)
        ]

  run_lanes-Runs :
      (lease : Lease) (halted : Bool) (k : KeyRun W)
      → IsOutbox (record_of k.store deps.page.key).outbox
      → Runs deps.page.key
          (run_lanes api strategy reconcile_api reconcile_strategy deps lease halted k)
  unfolding run_lanes
  run_lanes-Runs lease halted k o =
      let key = deps.page.key in
      then_lane-Runs key _ _ (live_lane-Runs lease halted k o) λ (k₁ : KeyRun W) o₁.
        then_lane-Runs key _ _ (reconcile_lane-Runs lease halted k₁ o₁) λ (k₂ : KeyRun W) o₂.
          then_lane-Runs key _ _ (backfill_lane-Runs lease halted k₂ o₂)
            λ (k₃ : KeyRun W) o₃. (_, refl, o₃)

  halted_lanes-Runs :
      (lease : Lease) (halted : Bool) (r : Result (Unit {0}) × KeyRun W)
      → IsOutbox (record_of r.1.store deps.page.key).outbox
      → Runs deps.page.key
          (halted_lanes api strategy reconcile_api reconcile_strategy deps lease halted r)
  halted_lanes-Runs lease halted (err thrown, k) o = (_, refl, o)
  halted_lanes-Runs lease halted (ok _, k) o = run_lanes-Runs lease halted k o

  saved_halt-IsOutbox :
      (k : KeyRun W) (state : PollerState) (r : Result (Unit {0}) × MemoryStore)
      → IsOutbox (record_of r.1 deps.page.key).outbox
      → IsOutbox
          (record_of
            (saved_halt api strategy reconcile_api reconcile_strategy deps k state r).1.store
            deps.page.key).outbox
  saved_halt-IsOutbox k state (err thrown, s) o = o
  saved_halt-IsOutbox k state (ok _, s) o = o

  halt_key-IsOutbox :
      (lease : Lease) (halted : Bool) (k : KeyRun W)
      → IsOutbox (record_of k.store deps.page.key).outbox
      → IsOutbox
          (record_of
            (halt_key api strategy reconcile_api reconcile_strategy deps lease halted k).1.store
            deps.page.key).outbox
  unfolding halt_key
  halt_key-IsOutbox lease false k o = o
  halt_key-IsOutbox lease true k o =
      saved_halt-IsOutbox k _ _ (save_state-IsOutbox k.store deps.page.key lease _ o)

  after_first_drain-Runs :
      (lease : Lease) (k : KeyRun W) (r : Result DrainResult × Drain W)
      → IsOutbox (record_of r.1.store deps.page.key).outbox
      → Runs deps.page.key
          (after_first_drain api strategy reconcile_api reconcile_strategy deps lease k r)
  unfolding after_first_drain
  after_first_drain-Runs lease k (err thrown, d) o = (_, refl, o)
  after_first_drain-Runs lease k (ok r, d) o =
      halted_lanes-Runs lease r.halted _ (halt_key-IsOutbox lease r.halted _ o)

  unless_paused-Runs :
      (now_paused : Bool) (lease : Lease) (k : KeyRun W)
      → IsOutbox (record_of k.store deps.page.key).outbox
      → Runs deps.page.key
          (unless_paused api strategy reconcile_api reconcile_strategy deps now_paused lease k)
  unfolding serve
  unless_paused-Runs true lease k o = (_, refl, o)
  unless_paused-Runs false lease k o =
      let begun = Key.begun api strategy reconcile_api reconcile_strategy deps k in
      let (r, e, f) =
        drain_outbox-IsOutbox api.dispatch
          (first_dispatcher api strategy reconcile_api reconcile_strategy deps lease)
          deps.has_consumer k.store k.world o in
      subst
        (λ (x : Option (Result DrainResult × Drain W)).
          Runs deps.page.key
            (first_drained api strategy reconcile_api reconcile_strategy deps lease begun x))
        (sym e) (after_first_drain-Runs lease begun r f)

  acquire_lease-IsOutbox :
      (s : MemoryStore) (world : W)
      → IsOutbox (record_of s deps.page.key).outbox
      → IsOutbox
          (record_of
            (acquire_lease s deps.page.key deps.instance_id deps.lease_ttl_ms
              (api.dispatch.now world)).1
            deps.page.key).outbox
  unfolding step
  acquire_lease-IsOutbox s world o =
      step_rule (λ (rec : KeyRecord). IsOutbox rec.outbox) s deps.page.key deps.page.key
        (acquires deps.instance_id deps.lease_ttl_ms (api.dispatch.now world))
        (λ _.
          elim (Bool-cases
            (taken (record_of s deps.page.key).lease deps.instance_id (api.dispatch.now world))) [
              | inl t ↦ rw t o
              | inr f ↦ rw f o
            ])
        o

  -- A run that had a result has given the lease back.
  abbrev GivenBack : Lease → Option (Result RunKeyResult × MemoryStore × W) → Type 0
  GivenBack lease r =
      (a : Result RunKeyResult × MemoryStore × W) × (r ≡ some a)
      × (holds (record_of a.1 deps.page.key) lease ≡ false)

  released-GivenBack :
      (lease : Lease) (r : Option (Result Bool × KeyRun W))
      → Runs deps.page.key r
      → GivenBack lease (released api strategy reconcile_api reconcile_strategy deps lease r)
  released-GivenBack lease none (a, e, o) = absurd (cc e)
  released-GivenBack lease (some (r, k)) h =
      (_, refl, release_lease-refused k.store deps.page.key lease)

  abbrev acquired : MemoryStore → W → Option Lease × MemoryStore
  acquired s world =
      acquire_lease s deps.page.key deps.instance_id deps.lease_ttl_ms (api.dispatch.now world)

  -- A lease that is not given out yet is in force nowhere.
  fresh_lease-refused :
      (s : MemoryStore) (world : W) (lease : Lease)
      → IsFenced (record_of s deps.page.key)
      → (acquired s world).0 ≡ some lease
      → holds (record_of s deps.page.key) lease ≡ false
  unfolding holds
  fresh_lease-refused s world lease h e =
      let granted =
        (acquire_lease-exclusive s deps.page.key deps.instance_id deps.lease_ttl_ms
            (api.dispatch.now world)).2
          lease e in
      ground arith

  -- A run that had a result has given back the lease that it was to run under.
  abbrev GivesBack : Option Lease → Option (Result RunKeyResult × MemoryStore × W) → Type 0
  GivesBack given r =
      (a : Result RunKeyResult × MemoryStore × W) × (r ≡ some a)
      × ((lease : Lease) → given ≡ some lease → holds (record_of a.1 deps.page.key) lease ≡ false)

  with_lease-GivesBack :
      (out : RunKeyResult) (world : W) (given : Option Lease) (s : MemoryStore)
      → IsOutbox (record_of s deps.page.key).outbox
      → GivesBack given
          (with_lease api strategy reconcile_api reconcile_strategy deps out world (given, s))
  unfolding with_lease under_lease
  with_lease-GivesBack out world none s o = (_, refl, λ lease e. absurd (ground arith))
  with_lease-GivesBack out world (some lease) s filed =
      let (a, e, refused) = released-GivenBack lease _ (unless_paused-Runs _ lease _ filed) in
      (
        a,
        e,
        λ other same.
            subst (λ (l : Lease). holds (record_of a.1 deps.page.key) l ≡ false)
              (ap (λ (o : Option Lease). or_else o lease) same) refused,
      )

  when_due-GivesBack :
      (now_paused due : Bool) (out : RunKeyResult) (s : MemoryStore) (world : W)
      → IsFenced (record_of s deps.page.key)
      → IsOutbox (record_of s deps.page.key).outbox
      → GivesBack
          (acquired s world).0
          (when_due api strategy reconcile_api reconcile_strategy deps now_paused due out s world)
  when_due-GivesBack true due out s world h o =
      (_, refl, λ lease. fresh_lease-refused s world lease h)
  when_due-GivesBack false false out s world h o =
      (_, refl, λ lease. fresh_lease-refused s world lease h)
  when_due-GivesBack false true out s world h o =
      with_lease-GivesBack out world (acquired s world).0 (acquired s world).1
        (acquire_lease-IsOutbox s world o)

  -- A run of a key ends, whatever the API, the handler and the signal do, and the lease that it ran
  -- under is no longer in force then: on each early return, where a lane or the dispatcher threw, and
  -- where the lease was lost. It is asked that the record's lease was given out by its counter, and
  -- that the rows of its outbox are filed under the ids of their events.
  pub run_key-GivesBack :
      (s : MemoryStore) (world : W)
      → IsFenced (record_of s deps.page.key)
      → IsOutbox (record_of s deps.page.key).outbox
      → (a : Result RunKeyResult × MemoryStore × W) × (run_key api strategy reconcile_api
            reconcile_strategy deps s world
          ≡ some a)
        × ((lease : Lease)
            → (acquired s world).0 ≡ some lease
            → holds (record_of a.1 deps.page.key) lease ≡ false)
  unfolding run_key
  run_key-GivesBack s world h o = when_due-GivesBack _ _ _ s world h o
