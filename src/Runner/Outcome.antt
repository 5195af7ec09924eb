-- ===== src/Runner/Outcome.antt =====
-- src/core/runner.ts: how a cycle ends, and `runCycle` as a whole.
use watukuy.Base.{
  ℕ, ◌+◌, ◌-◌, Bool, true, false, ◌&&◌, Option, none, some, String, [], ltb, nat_eqb, if◌then◌else◌,
}
use watukuy.Types.{
  Lane, live, backfill, PollerState, with_lane, StatePatch, Result, ok, err, Error, is_lease_lost,
  is_throttle, http, aborted, serialize_error, SerializedError, RateLimitInfo, PollSummary,
  ScheduleState,
}
use watukuy.Scheduler.{after_success, after_failure, SchedulerConfig}
use watukuy.Store.{MemoryStore, save_state}
use watukuy.Dispatcher.{DrainResult}
use watukuy.Runner.Calls.{M, after}
use watukuy.Runner.Lanes.{lane_final}
use watukuy.Runner.Cycle.{
  Strategy, Api, CycleDeps, Cycle, no_patch, written, now_of, is_aborted, lane_before,
}
use watukuy.Runner.Pages.{between, page_loop, loop_fuel}
use watukuy.Runner.Finish.{complete_scan}

pub record TickPollResult : Type 0 where
  pub items : ℕ
  pub events : ℕ
  pub delivered : ℕ
  pub duration_ms : ℕ
  pub error : Option SerializedError

-- `CycleResult`, without the state that the cycle's variables hold.
pub record CycleResult : Type 0 where
  pub result : TickPollResult
  pub aborted : Bool

abbrev delivered_by : Option DrainResult → ℕ
delivered_by none = 0
delivered_by (some d) = d.delivered

abbrev first_some : Option RateLimitInfo → Option RateLimitInfo → Option RateLimitInfo
first_some none b = b
first_some (some a) b = some a

abbrev pub is_abort_error : Error → Bool
is_abort_error aborted = true
is_abort_error _ = false

abbrev retry_after_of : Error → Option ℕ
retry_after_of (http message status retry_after rate_limit) = retry_after
retry_after_of _ = none

-- `undefined` where the error says nothing of the rate limit
abbrev rate_limit_of : Error → Option (Option RateLimitInfo)
rate_limit_of (http message status retry_after (some info)) = some (some info)
rate_limit_of _ = none

module _ {W C : Type 0} (api : Api W C) (strategy : Strategy C) (deps : CycleDeps) (lane : Lane)
    (start : PollerState) (started_at : ℕ) where
  abbrev config : SchedulerConfig
  config = record { schedule = deps.page.poller.schedule; circuit = deps.page.poller.circuit }

  abbrev events_of : Cycle W C → ℕ
  events_of c = c.created + c.updated + c.deleted

  abbrev not_modified_of : Cycle W C → Bool
  not_modified_of c = api.saw_not_modified c.world && nat_eqb c.items 0

  unfoldable pub summary_of : Cycle W C → PollSummary
  summary_of c = record {
    lane = lane;
    started_at = started_at;
    duration_ms = now_of api strategy deps lane c - started_at;
    pages = c.pages;
    items = c.items;
    events = record { created = c.created; updated = c.updated; deleted = c.deleted };
    not_modified = not_modified_of c;
    truncated = c.truncated;
  }

  abbrev of_live : Lane → Bool
  of_live live = true
  of_live _ = false

  -- The schedule after a cycle, with the random numbers after its draw.
  unfoldable pub schedule_after : Cycle W C → ScheduleState × W
  unfolding summary_of after_success
  schedule_after c =
      let now = now_of api strategy deps lane c in
      let (draw, world) = api.dispatch.random c.world in
      if c.halted
      then (
        record c.state.schedule { last_poll = some (summary_of c); last_poll_at = some now },
        c.world,
      )
      else if of_live lane
      then (
        (after_success c.state.schedule config now draw (record {
          had_events = ltb 0 (events_of c);
          not_modified = not_modified_of c;
          truncated = c.truncated;
          rate_limit = first_some (api.rate_limit c.world) start.schedule.rate_limit;
          summary = some (summary_of c);
        })).state,
        world,
      )
      else (record c.state.schedule { last_poll = some (summary_of c) }, c.world)

  abbrev result_of : Cycle W C → ℕ → Option SerializedError → TickPollResult
  result_of c events error = record {
    items = c.items;
    events = events;
    delivered = delivered_by c.last_drain;
    duration_ms = now_of api strategy deps lane c - started_at;
    error = error;
  }

  unfoldable pub completed : Cycle W C → Cycle W C
  completed c = if c.done then record c { cursor = strategy.on_cycle_complete c.cursor } else c

  -- The bookkeeping of a cycle that did not throw.
  unfoldable pub finish_cycle : Bool → M (Cycle W C) CycleResult
  unfolding completed lane_final schedule_after
  finish_cycle force before_completion =
      let c = completed before_completion in
      let now = now_of api strategy deps lane c in
      let (schedule, world) = schedule_after c in
      let final =
        lane_final lane (lane_before api strategy deps lane start) force
          (strategy.serialize c.cursor) c.done now in
      let lanes = with_lane c.state.lanes lane final in
      let patch : StatePatch = record no_patch {
        lanes = some lanes;
        schedule = some schedule;
        sequence = some c.sequence;
        updated_at = some now;
      } in
      after
        (written (record c { world = world })
          (λ (e : Cycle W C). record e {
            state = record e.state {
              lanes = lanes;
              schedule = schedule;
              sequence = c.sequence;
              updated_at = now;
            };
          })
          (save_state c.store deps.page.key deps.lease patch))
        (λ _ e. (ok (record { result = result_of e (events_of e) none; aborted = false }), e))

  -- The schedule after a cycle that threw
  unfoldable pub schedule_failed : Error → Cycle W C → ScheduleState × W
  unfolding after_failure
  schedule_failed thrown c =
      let (draw, world) = api.dispatch.random c.world in
      if of_live lane
      then (
        (after_failure c.state.schedule config (now_of api strategy deps lane c) draw (record {
          error = serialize_error thrown;
          retry_after_ms = retry_after_of thrown;
          is_throttle = is_throttle thrown;
          rate_limit = rate_limit_of thrown;
        })).state,
        world,
      )
      else (record c.state.schedule { last_error = some (serialize_error thrown) }, c.world)

  -- The `catch`: a lost lease is thrown on, an abort leaves the schedule, anything else is a failure
  -- of the poller that is kept. A state that cannot be saved for another reason is not saved.
  abbrev pub recorded :
      Error → ScheduleState → Result (Unit {0}) × Cycle W C → Result CycleResult × Cycle W C
  recorded thrown schedule (r, c) =
      let e : Cycle W C = record c {
        state = record c.state { schedule = schedule; sequence = c.sequence };
      } in
      elim r [
        | ok _ ↦ (
          ok (record {
            result = result_of e (events_of e) (some (serialize_error thrown));
            aborted = false;
          }),
          e,
        )
        | err refused ↦ if is_lease_lost refused then (err refused, c) else (
          ok (record {
            result = result_of e (events_of e) (some (serialize_error thrown));
            aborted = false;
          }),
          e,
        )
      ]

  unfoldable pub fail_cycle : Error → M (Cycle W C) CycleResult
  unfolding schedule_failed
  fail_cycle thrown c =
      if is_lease_lost thrown
      then (err thrown, c)
      else if is_aborted api strategy deps lane c && is_abort_error thrown
      then (
        ok (record { result = result_of c 0 (some (serialize_error thrown)); aborted = true }),
        c,
      )
      else (let (schedule, world) = schedule_failed thrown c in
          let patch : StatePatch = record no_patch {
            schedule = some schedule;
            sequence = some c.sequence;
            updated_at = some (now_of api strategy deps lane c);
          } in
          recorded thrown schedule (
            written (record c { world = world }) (λ e. e)
              (save_state c.store deps.page.key deps.lease patch)))

  abbrev pub caught : Result CycleResult × Cycle W C → Result CycleResult × Cycle W C
  caught (err thrown, c) = fail_cycle thrown c
  caught (ok r, c) = (ok r, c)

  -- A cycle in which a drain does not end does not end.
  abbrev pub unless_hung : Result CycleResult × Cycle W C → Option (Result CycleResult × Cycle W C)
  unless_hung r = if r.1.hung then none else some r

  abbrev pub after_pages :
      Bool → Option (Result (Unit {0}) × Cycle W C) → Option (Result CycleResult × Cycle W C)
  after_pages force none = none
  after_pages force (some r) = unless_hung (
      caught
        (after r (λ _ c. after (complete_scan api strategy deps lane c) (λ _. finish_cycle force))))

  -- The cycle from its first page on: pages, deletions and bookkeeping inside the `try`.
  unfoldable pub run_pages : Bool → Option C → Cycle W C → Option (Result CycleResult × Cycle W C)
  unfolding page_loop loop_fuel complete_scan
  run_pages force target c = after_pages force (
      page_loop api strategy deps lane (lane_before api strategy deps lane start) force target
        (loop_fuel api strategy deps lane) between c)

  abbrev is_backfill : Lane → Bool
  is_backfill backfill = true
  is_backfill _ = false

  abbrev read_cursor : Option String → Result C
  read_cursor none = ok strategy.initial
  read_cursor (some text) = strategy.deserialize text

  abbrev read_target : Option String → Result (Option C)
  read_target none = ok none
  read_target (some text) = elim (strategy.deserialize text) [
    | err thrown ↦ err thrown
    | ok target ↦ ok (some target)
  ]

  unfoldable pub first_cursor : Result C
  first_cursor = read_cursor (lane_before api strategy deps lane start).cursor

  unfoldable pub backfill_target : Result (Option C)
  backfill_target =
      if is_backfill lane
      then read_target (lane_before api strategy deps lane start).target
      else ok none

  unfoldable pub is_forced : Bool
  is_forced = is_backfill lane && (lane_before api strategy deps lane start).force

  unfoldable pub new_cycle : MemoryStore → W → C → Cycle W C
  new_cycle s world cursor = record {
    store = s;
    world = world;
    state = start;
    cursor = cursor;
    sequence = start.sequence;
    pages = 0;
    items = 0;
    created = 0;
    updated = 0;
    deleted = 0;
    truncated = false;
    seen = [];
    last_drain = none;
    halted = false;
    done = false;
    hung = false;
  }

  -- Without a cursor, where the persisted one does not parse.
  abbrev pub begun :
      MemoryStore → W → Result C → Result (Option C) → Option (Result CycleResult × Cycle W C)
  begun s world (err thrown) target = some (err thrown, new_cycle s world strategy.initial)
  begun s world (ok cursor) (err thrown) = some (err thrown, new_cycle s world cursor)
  begun s world (ok cursor) (ok target) = run_pages is_forced target (new_cycle s world cursor)

  -- runCycle: a persisted cursor that does not parse is thrown before the `try`.
  unfoldable pub run_cycle : MemoryStore → W → Option (Result CycleResult × Cycle W C)
  unfolding run_pages first_cursor backfill_target is_forced new_cycle
  run_cycle s world = begun s world first_cursor backfill_target
