-- ===== src/Runner/Cycle.antt =====
-- src/core/runner.ts: one cycle of a lane, `runCycle`, up to the pages. A call that may throw takes the
-- variables of the cycle and gives its value or the error, with the variables that it leaves. The
-- fetch function is a generator that the environment answers for; a promise of a page is a generator
-- of one page.
use watukuy.Base.{
  ℕ, Bool, true, false, Option, none, some, String, List, leb, or_else, if◌then◌else◌,
}
use watukuy.Types.{
  Value, ResolvedPoller, Lease, Lane, PollerState, LaneCursor, lane_of, StatePatch, Result, ok, err,
  Error, lease_lost, RateLimitInfo, ScheduleState,
}
use watukuy.Runner.Calls.{M}
use watukuy.Cursor.Timestamp.{AdvanceInput, AdvanceResult}
use watukuy.Store.{MemoryStore, save_state, renew_lease}
use watukuy.Dispatcher.{Env, DispatcherDeps, Drain, DrainResult, no_result}
use watukuy.Dispatcher.Loop.{drain_outbox}
use watukuy.Runner.Halt.{halt_schedule}
use watukuy.Runner.Lanes.{no_cursor}
use watukuy.Runner.Page.{PageDeps}

pub record Page : Type 0 where
  pub items : List Value
  pub cursor : Option String
  pub has_more : Option Bool

-- What the generator of a fetch answers: a page, its end, or an error.
pub data Pull : Type 0 where
  page : Page → Pull
  exhausted : Pull
  broken : Error → Pull

-- A cursor strategy, with its configuration. `full_scan` is `isFullScan`.
pub record Strategy (C : Type 0) : Type 0 where
  pub full_scan : Bool
  pub initial : C
  pub serialize : C → String
  pub deserialize : String → Result C
  pub for_fetch : C → ℕ → Result C
  pub advance : C → AdvanceInput → Result (AdvanceResult C)
  pub on_cycle_complete : C → C
  pub reached : C → C → Result Bool

-- `fetch lane cursor page n` is the answer to the pull after `n` pages of a call that began at the
-- given page; the flags are those that the HTTP client sets, of this cycle.
pub record Api (W C : Type 0) : Type 0 where
  pub dispatch : Env W
  pub fetch : Lane → C → ℕ → ℕ → W → Pull × W
  pub saw_not_modified : W → Bool
  pub rate_limit : W → Option RateLimitInfo

pub record CycleDeps : Type 0 where
  pub page : PageDeps
  pub lease : Lease
  pub dispatch_batch_size : ℕ
  pub has_consumer : Bool
  pub lease_ttl_ms : ℕ
  pub deadline : Option ℕ

-- The variables of `runCycle`; the fields from `pages` to `truncated` are those of `summary`. `hung` is
-- set where a drain does not end: the cycle does not go on from there, and what is computed after it
-- is thrown away by `after_pages`.
pub record Cycle (W C : Type 0) : Type 0 where
  pub store : MemoryStore
  pub world : W
  pub state : PollerState
  pub cursor : C
  pub sequence : ℕ
  pub pages : ℕ
  pub items : ℕ
  pub created : ℕ
  pub updated : ℕ
  pub deleted : ℕ
  pub truncated : Bool
  pub seen : List String
  pub last_drain : Option DrainResult
  pub halted : Bool
  pub done : Bool
  pub hung : Bool

abbrev pub full_scan_page_cap : ℕ
full_scan_page_cap = 10_000

abbrev pub no_patch : StatePatch
no_patch = record {
  lanes = none;
  schedule = none;
  paused = none;
  schema_version = none;
  sequence = none;
  updated_at = none;
}

module _ {W C : Type 0} where
  -- A store write, and what follows in the variables where it succeeds.
  abbrev pub written :
      Cycle W C
      → (Cycle W C → Cycle W C)
      → Result (Unit {0}) × MemoryStore
      → Result (Unit {0}) × Cycle W C
  written c f (err thrown, store) = (err thrown, record c { store = store })
  written c f (ok _, store) = (ok tt, f (record c { store = store }))

module _ {W C : Type 0} (api : Api W C) (strategy : Strategy C) (deps : CycleDeps)
    (lane : Lane) where
  abbrev Run : Type 0 → Type 0
  Run A = M (Cycle W C) A

  abbrev pub poller_of : ResolvedPoller
  poller_of = deps.page.poller

  abbrev pub now_of : Cycle W C → ℕ
  now_of c = api.dispatch.now c.world

  abbrev pub is_aborted : Cycle W C → Bool
  is_aborted c = api.dispatch.aborted c.world

  -- The lane as the cycle found it.
  abbrev pub lane_before : PollerState → LaneCursor
  lane_before start = or_else (lane_of start.lanes lane) no_cursor

  abbrev pub page_cap : ℕ
  page_cap = if strategy.full_scan then full_scan_page_cap else poller_of.max_pages_per_cycle

  abbrev pub past_deadline : Cycle W C → Bool
  past_deadline c = elim deps.deadline [ none ↦ false | some at ↦ leb at (now_of c) ]

  abbrev pub dispatcher : DispatcherDeps
  dispatcher = record {
    poller = poller_of;
    key = deps.page.key;
    lease = deps.lease;
    dispatch_batch_size = deps.dispatch_batch_size;
  }

  -- The cycle after a drain. A drain without a result marks it, and then it has no result either.
  abbrev pub drained :
      Cycle W C → Option (Result DrainResult × Drain W) → Result DrainResult × Cycle W C
  drained c none = (ok no_result, record c { hung = true })
  drained c (some (r, d)) = (r, record c { store = d.store; world = d.world })

  -- `drainOutbox`, which ends where the rows of the outbox are filed under their events.
  unfoldable pub drain : Run DrainResult
  unfolding drain_outbox
  drain c = drained c (drain_outbox api.dispatch dispatcher deps.has_consumer c.store c.world)

  abbrev pub rescheduled : ScheduleState → ℕ → Cycle W C → Cycle W C
  rescheduled schedule now e = record e {
    state = record e.state { schedule = schedule; updated_at = now };
  }

  unfoldable pub open_circuit_for_halt : Run (Unit {0})
  unfolding halt_schedule
  open_circuit_for_halt c =
      let now = now_of c in
      let schedule = halt_schedule c.state.schedule poller_of.circuit now in
      let patch : StatePatch = record no_patch {
        schedule = some schedule;
        updated_at = some now;
      } in
      written c (rescheduled schedule now) (save_state c.store deps.page.key deps.lease patch)

  -- `keeper.renewNow()`, or the error of a lease that is gone
  unfoldable pub renew_now : Run (Unit {0})
  renew_now c =
      let (kept, store) =
        renew_lease c.store deps.page.key deps.lease deps.lease_ttl_ms (now_of c) in
      let after_renewal = record c { store = store } in
      if kept then (ok tt, after_renewal) else (
        err (lease_lost deps.page.key.poller deps.page.key.partition deps.lease.epoch),
        after_renewal,
      )
