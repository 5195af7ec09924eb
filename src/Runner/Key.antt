-- ===== src/Runner/Key.antt =====
-- src/core/runner.ts: `runKey`, which runs what is due for one key under its lease. The abort
-- controller is the environment's signal; the heartbeat between pages is src/core/lease-keeper.ts.
use watukuy.Base.{
  ℕ, Bool, true, false, not, ◌&&◌, ◌||◌, Option, none, some, String, List, [], ◌∷◌, ◌++◌, ltb,
  or_else, if◌then◌else◌,
}
use watukuy.Types.{
  live, backfill, reconcile, ResolvedPoller, PollerState, StatePatch, Lease, Result, ok, err,
  is_lease_lost,
}
use watukuy.Scheduler.{is_due, begin_probe}
use watukuy.Store.{MemoryStore, load_state, acquire_lease, release_lease, save_state}
use watukuy.Store.Queries.{count_pending}
use watukuy.Dispatcher.{DispatcherDeps, Drain, DrainResult}
use watukuy.Dispatcher.Loop.{drain_outbox}
use watukuy.Runner.Halt.{halt_schedule}
use watukuy.Runner.Lanes.{empty_state, reconcile_due, backfill_active, note_retry}
use watukuy.Runner.Page.{PageDeps}
use watukuy.Runner.Cycle.{Strategy, Api, CycleDeps, Cycle, no_patch}
use watukuy.Runner.Outcome.{TickPollResult, CycleResult, run_cycle}

pub data Reason : Type 0 where
  not_due paused leased stopped : Reason

pub record RunKeyResult : Type 0 where
  pub ran : Bool
  pub reason : Option Reason
  pub results : List TickPollResult
  pub state : Option PollerState
  pub next_retry_at : Option ℕ
  pub lease_lost : Bool
  pub drained_before : ℕ

-- RunnerDeps and RunKeyOptions
pub record KeyDeps : Type 0 where
  pub page : PageDeps
  pub instance_id : String
  pub dispatch_batch_size : ℕ
  pub has_consumer : Bool
  pub lease_ttl_ms : ℕ
  pub deadline : Option ℕ
  pub force : Bool

-- The variables of `runKey` under the lease.
pub record KeyRun (W : Type 0) : Type 0 where
  pub store : MemoryStore
  pub world : W
  pub state : PollerState
  pub out : RunKeyResult

abbrev pub nothing : PollerState → RunKeyResult
nothing pre = record {
  ran = false;
  reason = none;
  results = [];
  state = some pre;
  next_retry_at = none;
  lease_lost = false;
  drained_before = 0;
}

abbrev pub because : Reason → RunKeyResult → RunKeyResult
because reason out = record out { reason = some reason }

module _ {W : Type 0} where
  -- `true` is an early return.
  abbrev pub then_lane :
      Option (Result Bool × KeyRun W)
      → (KeyRun W → Option (Result Bool × KeyRun W))
      → Option (Result Bool × KeyRun W)
  then_lane none next = none
  then_lane (some (err thrown, k)) next = some (err thrown, k)
  then_lane (some (ok true, k)) next = some (ok true, k)
  then_lane (some (ok false, k)) next = next k

  abbrev with_result : KeyRun W → CycleResult → PollerState → Option DrainResult → KeyRun W
  with_result k r state drain = record k {
    state = state;
    out = record k.out {
      results = k.out.results ++ r.result ∷ [];
      next_retry_at = note_retry k.out.next_retry_at drain;
      reason = if r.aborted then some stopped else k.out.reason;
    };
  }

  -- A lane's cycle, whose result is kept.
  abbrev pub lane_ran :
      {C : Type 0}
      → KeyRun W
      → Option (Result CycleResult × Cycle W C)
      → Option (Result Bool × KeyRun W)
  lane_ran k none = none
  lane_ran k (some (err thrown, c)) =
      some (err thrown, record k { store = c.store; world = c.world })
  lane_ran k (some (ok r, c)) = some (
    ok r.aborted,
    with_result (record k { store = c.store; world = c.world }) r c.state c.last_drain,
  )

-- The lanes' own strategies and fetch functions; `replay` is no lane of the runner.
module _ {W C R : Type 0} (api : Api W C) (strategy : Strategy C) (reconcile_api : Api W R)
    (reconcile_strategy : Strategy R) (deps : KeyDeps) where
  abbrev poller : ResolvedPoller
  poller = deps.page.poller

  abbrev pub clock : W → ℕ
  clock world = api.dispatch.now world

  abbrev pub cycle_deps : Lease → CycleDeps
  cycle_deps lease = record {
    page = deps.page;
    lease = lease;
    dispatch_batch_size = deps.dispatch_batch_size;
    has_consumer = deps.has_consumer;
    lease_ttl_ms = deps.lease_ttl_ms;
    deadline = deps.deadline;
  }

  unfoldable pub load_or_empty : MemoryStore → W → PollerState
  unfolding load_state empty_state
  load_or_empty s world = or_else (load_state s deps.page.key) (empty_state (clock world) poller)

  -- Is there anything to do? The schedule, the lanes and the outbox, before the lease is asked for.
  unfoldable pub something_due : MemoryStore → W → PollerState → Bool
  unfolding reconcile_due backfill_active count_pending
  something_due s world pre =
      (deps.force || is_due pre.schedule (clock world))
      || (reconcile_due poller pre (clock world)
          || (backfill_active pre || (deps.has_consumer && ltb 0 (count_pending s deps.page.key))))

  abbrev pub runs_live : Bool → KeyRun W → Bool
  runs_live halted k = not halted && (deps.force || is_due k.state.schedule (clock k.world))

  abbrev pub runs_reconcile : Bool → KeyRun W → Bool
  runs_reconcile halted k =
      not halted
      && (reconcile_due poller k.state (clock k.world) && not (api.dispatch.aborted k.world))

  abbrev pub runs_backfill : Bool → KeyRun W → Bool
  runs_backfill halted k =
      not halted && (backfill_active k.state && not (api.dispatch.aborted k.world))

  -- The live lane runs as a probe where the circuit is open.
  abbrev pub probed : KeyRun W → PollerState
  probed k = record k.state { schedule = begin_probe k.state.schedule }

  unfoldable pub live_lane : Lease → Bool → KeyRun W → Option (Result Bool × KeyRun W)
  unfolding run_cycle begin_probe
  live_lane lease halted k =
      if runs_live halted k
      then lane_ran k (
          run_cycle api strategy (cycle_deps lease) live (probed k) (clock k.world) k.store k.world)
      else some (ok false, k)

  unfoldable pub reconcile_lane : Lease → Bool → KeyRun W → Option (Result Bool × KeyRun W)
  unfolding run_cycle reconcile_due
  reconcile_lane lease halted k =
      if runs_reconcile halted k
      then lane_ran k (
          run_cycle reconcile_api reconcile_strategy (cycle_deps lease) reconcile k.state
            (clock k.world) k.store k.world)
      else some (ok false, k)

  unfoldable pub backfill_lane : Lease → Bool → KeyRun W → Option (Result Bool × KeyRun W)
  unfolding run_cycle backfill_active
  backfill_lane lease halted k =
      if runs_backfill halted k
      then lane_ran k (
          run_cycle api strategy (cycle_deps lease) backfill k.state (clock k.world) k.store
            k.world)
      else some (ok false, k)

  abbrev finished : KeyRun W → Option (Result Bool × KeyRun W)
  finished k = some (ok true, record k { out = record k.out { state = some k.state } })

  -- Live, reconcile, backfill.
  unfoldable pub run_lanes : Lease → Bool → KeyRun W → Option (Result Bool × KeyRun W)
  unfolding live_lane reconcile_lane backfill_lane
  run_lanes lease halted k = then_lane (live_lane lease halted k) λ (k₁ : KeyRun W).
      then_lane (reconcile_lane lease halted k₁)
        λ (k₂ : KeyRun W). then_lane (backfill_lane lease halted k₂) finished

  abbrev pub saved_halt :
      KeyRun W → PollerState → Result (Unit {0}) × MemoryStore → Result (Unit {0}) × KeyRun W
  saved_halt k state (err thrown, s) = (err thrown, record k { store = s })
  saved_halt k state (ok _, s) = (ok tt, record k { store = s; state = state })

  -- openCircuitForHalt, after the first drain
  unfoldable pub halt_key : Lease → Bool → KeyRun W → Result (Unit {0}) × KeyRun W
  unfolding halt_schedule
  halt_key lease false k = (ok tt, k)
  halt_key lease true k =
      let now = clock k.world in
      let schedule = halt_schedule k.state.schedule poller.circuit now in
      let patch : StatePatch = record no_patch {
        schedule = some schedule;
        updated_at = some now;
      } in
      saved_halt k (record k.state { schedule = schedule; updated_at = now })
        (save_state k.store deps.page.key lease patch)

  abbrev pub halted_lanes :
      Lease → Bool → Result (Unit {0}) × KeyRun W → Option (Result Bool × KeyRun W)
  halted_lanes lease halted (err thrown, k) = some (err thrown, k)
  halted_lanes lease halted (ok _, k) = run_lanes lease halted k

  abbrev with_drain : KeyRun W → DrainResult → KeyRun W
  with_drain k d = record k {
    out = record k.out {
      next_retry_at = note_retry k.out.next_retry_at (some d);
      drained_before = d.delivered;
    };
  }

  unfoldable pub after_first_drain :
      Lease → KeyRun W → Result DrainResult × Drain W → Option (Result Bool × KeyRun W)
  unfolding halt_key run_lanes
  after_first_drain lease k (err thrown, d) =
      some (err thrown, record k { store = d.store; world = d.world })
  after_first_drain lease k (ok r, d) =
      halted_lanes lease r.halted
        (halt_key lease r.halted (with_drain (record k { store = d.store; world = d.world }) r))

  -- A drain that does not end is the end of the run too.
  abbrev pub first_drained :
      Lease → KeyRun W → Option (Result DrainResult × Drain W) → Option (Result Bool × KeyRun W)
  first_drained lease k none = none
  first_drained lease k (some r) = after_first_drain lease k r

  abbrev pub begun : KeyRun W → KeyRun W
  begun k = record k { out = record k.out { ran = true } }

  abbrev pub first_dispatcher : Lease → DispatcherDeps
  first_dispatcher lease = record {
    poller = poller;
    key = deps.page.key;
    lease = lease;
    dispatch_batch_size = deps.dispatch_batch_size;
  }

  -- The outbox is drained, and the lanes run.
  unfoldable pub serve : Lease → KeyRun W → Option (Result Bool × KeyRun W)
  unfolding after_first_drain drain_outbox
  serve lease k =
      first_drained lease (begun k)
        (drain_outbox api.dispatch (first_dispatcher lease) deps.has_consumer k.store k.world)

  abbrev pub unless_paused : Bool → Lease → KeyRun W → Option (Result Bool × KeyRun W)
  unless_paused true lease k = some (ok true, record k { out = because paused k.out })
  unless_paused false lease k = serve lease k

  -- What is done under the lease: nothing where the poller was paused meanwhile.
  unfoldable pub under_lease : Lease → KeyRun W → Option (Result Bool × KeyRun W)
  unfolding serve
  under_lease lease k = unless_paused k.state.paused lease k

  -- The `catch`: a lost lease is reported, any other error thrown on.
  abbrev pub outcome : Result Bool → RunKeyResult → Result RunKeyResult
  outcome (ok _) out = ok out
  outcome (err thrown) out =
      if is_lease_lost thrown then ok (record out { lease_lost = true }) else err thrown

  -- The `finally`: the lease is released however the run ends.
  abbrev pub released :
      Lease → Option (Result Bool × KeyRun W) → Option (Result RunKeyResult × MemoryStore × W)
  released lease none = none
  released lease (some (r, k)) =
      some (outcome r k.out, release_lease k.store deps.page.key lease, k.world)

  unfoldable pub with_lease :
      RunKeyResult → W → Option Lease × MemoryStore → Option (Result RunKeyResult × MemoryStore × W)
  unfolding under_lease load_or_empty
  with_lease out world (none, s) = some (ok (because leased out), s, world)
  with_lease out world (some lease, s) = released lease (
      under_lease lease
        (record { store = s; world = world; state = load_or_empty s world; out = out }))

  -- What the state and the schedule allow: the tests are those of `run_key`.
  abbrev pub when_due :
      Bool → Bool → RunKeyResult → MemoryStore → W → Option (Result RunKeyResult × MemoryStore × W)
  when_due true due out s world = some (ok (because paused out), s, world)
  when_due false false out s world = some (ok (because not_due out), s, world)
  when_due false true out s world =
      with_lease out world
        (acquire_lease s deps.page.key deps.instance_id deps.lease_ttl_ms (clock world))

  unfoldable pub run_key : MemoryStore → W → Option (Result RunKeyResult × MemoryStore × W)
  unfolding with_lease something_due load_or_empty
  run_key s world =
      let pre = load_or_empty s world in
      when_due pre.paused (something_due s world pre) (nothing pre) s world
