-- ===== src/Scheduler.antt =====
-- src/scheduler/scheduler.ts: the adaptive scheduler. Each function reads a `ScheduleState` and
-- returns a fresh one; `now` and the one random draw of a call are arguments. Intervals are whole
-- milliseconds; jitter, factor and draw are quotients, and arithmetic on them is exact.
pub mod Interval
pub mod Pacing
pub mod Breaker
pub mod Due
mod Examples
use watukuy.Base.{
  ℕ, zero, suc, ◌+◌, ◌-◌, ◌*◌, ◌/◌, ◌^◌, min, max, Bool, true, false, not, ◌&&◌, ◌||◌, Option, none,
  some, ltb, leb, nat_eqb, or_else, if◌then◌else◌, List, [], ◌∷◌,
}
use watukuy.Types.{
  RateLimitInfo, SerializedError, PollSummary, ScheduleState, CircuitState, closed, opened,
  half_open, Ratio, Backoff, Schedule, Circuit,
}
use watukuy.Base.Rounding.{round_div, ceil_div}

pub record SchedulerConfig : Type 0 where
  pub schedule : Schedule
  pub circuit : Circuit

pub data ScheduleReason : Type 0 where
  events_speed_up idle_back_off not_modified fixed catch_up : ScheduleReason
  paced throttled backoff circuit_open probe_failed : ScheduleReason

pub record SuccessOutcome : Type 0 where
  pub had_events : Bool
  pub not_modified : Bool
  pub truncated : Bool
  pub rate_limit : Option RateLimitInfo
  pub summary : Option PollSummary

pub record SuccessResult : Type 0 where
  pub state : ScheduleState
  pub circuit_closed : Bool
  pub reason : ScheduleReason

-- `rate_limit` is `none` where the error says nothing of it, and the stored value is kept.
pub record FailureOutcome : Type 0 where
  pub error : SerializedError
  pub retry_after_ms : Option ℕ
  pub is_throttle : Bool
  pub rate_limit : Option (Option RateLimitInfo)

pub record FailureResult : Type 0 where
  pub state : ScheduleState
  pub circuit_opened : Bool
  pub reason : ScheduleReason

unfoldable pub clamp : ℕ → ℕ → ℕ → ℕ
clamp value lo hi = min hi (max lo value)

unfoldable pub initial_schedule_state : ℕ → SchedulerConfig → ScheduleState
initial_schedule_state now cfg = record {
  next_due_at = some now;
  interval_ms = some cfg.schedule.min_ms;
  consecutive_failures = 0;
  circuit = closed;
  circuit_opened_at = none;
  throttled_until = none;
  rate_limit = none;
  last_poll_at = none;
  last_poll = none;
  last_error = none;
}

-- `interval * (1 + (2 * random - 1) * jitter)`, over the common denominator; below zero it is 0.
unfoldable pub jittered : ℕ → Ratio → Ratio → ℕ
unfolding round_div
jittered interval jitter random =
    if nat_eqb jitter.num 0
    then interval
    else round_div
        (interval
          * (jitter.den * random.den + 2 * random.num * jitter.num - random.den * jitter.num))
        (jitter.den * random.den)

pub data JitterMode : Type 0 where
  full no_jitter : JitterMode

-- `Math.max(0, Math.min(maxMs, baseMs * factor ** (n - 1)))`, as a quotient.
unfoldable pub capped_delay : ℕ → Backoff → Ratio
capped_delay n b =
    let scale = b.factor.den ^ (n - 1) in
    record { num = min (b.max_ms * scale) (b.base_ms * b.factor.num ^ (n - 1)); den = scale }

unfoldable pub backoff_delay : ℕ → Backoff → Ratio → JitterMode → ℕ
unfolding capped_delay round_div
backoff_delay attempt b random no_jitter =
    let capped = capped_delay (max 1 attempt) b in round_div capped.num capped.den
backoff_delay attempt b random full =
    let capped = capped_delay (max 1 attempt) b in
    round_div (random.num * capped.num) (random.den * capped.den)

-- The spacing at which the remaining requests last until the window resets.
unfoldable pub spacing_until : ℕ → ℕ → ℕ → ℕ
unfolding ceil_div
spacing_until remaining reset_at now =
    if nat_eqb remaining 0 then reset_at - now else ceil_div (reset_at - now) (max remaining 1)

abbrev paced_by : ℕ → Option ℕ → Option ℕ → ℕ → ℕ
paced_by base (some remaining) (some reset_at) now =
    if leb reset_at now then base else max base (spacing_until remaining reset_at now)
paced_by base _ _ now = base

unfoldable pub apply_pacing : ℕ → Option RateLimitInfo → ℕ → ℕ
unfolding spacing_until
apply_pacing interval none now = interval
apply_pacing interval (some info) now = paced_by interval info.remaining info.reset_at now

-- The interval of the next cycle, and why: additive growth by half when idle, halved on events.
unfoldable pub plan_interval : Schedule → ℕ → SuccessOutcome → ℕ × ScheduleReason
unfolding round_div
plan_interval schedule previous outcome =
    if outcome.truncated
    then (previous, catch_up)
    else if not schedule.adaptive
    then (schedule.min_ms, fixed)
    else if outcome.not_modified || not outcome.had_events
    then (
      min schedule.max_ms (round_div (previous * 3) 2),
      if outcome.not_modified then ScheduleReason.not_modified else idle_back_off,
    )
    else (max schedule.min_ms (round_div previous 2), events_speed_up)

abbrev pub is_closed : CircuitState → Bool
is_closed closed = true
is_closed _ = false

abbrev first_some {ℓ} : {A : Type ℓ} → Option A → Option A → Option A
first_some (some a) b = some a
first_some none b = b

abbrev pub previous_interval : ScheduleState → Schedule → ℕ
previous_interval state schedule =
    clamp (or_else state.interval_ms schedule.min_ms) schedule.min_ms schedule.max_ms

-- The wait before pacing: none after a truncated cycle, else the jittered interval.
unfoldable pub wait_before : ScheduleState → SchedulerConfig → Ratio → SuccessOutcome → ℕ
unfolding clamp plan_interval jittered
wait_before state cfg random outcome =
    if outcome.truncated
    then 0
    else jittered (plan_interval cfg.schedule (previous_interval state cfg.schedule) outcome).0
        cfg.schedule.jitter random

unfoldable pub after_success :
    ScheduleState → SchedulerConfig → ℕ → Ratio → SuccessOutcome → SuccessResult
unfolding wait_before apply_pacing
after_success state cfg now random outcome =
    let plan = plan_interval cfg.schedule (previous_interval state cfg.schedule) outcome in
    let base_wait = wait_before state cfg random outcome in
    let wait = apply_pacing base_wait outcome.rate_limit now in
    record {
      state = record state {
        next_due_at = some (now + wait);
        interval_ms = some plan.0;
        consecutive_failures = 0;
        circuit = closed;
        circuit_opened_at = none;
        throttled_until = none;
        rate_limit = outcome.rate_limit;
        last_poll_at = some now;
        last_poll = first_some outcome.summary state.last_poll;
        last_error = none;
      };
      circuit_closed = not (is_closed state.circuit);
      reason = if ltb base_wait wait then paced else plan.1;
    }

abbrev still_throttled : Option ℕ → ℕ → Option ℕ
still_throttled none now = none
still_throttled (some t) now = if ltb now t then some t else none

-- A throttled cycle: sleep as told, count no failure, leave the circuit alone.
unfoldable pub after_throttle : ScheduleState → SchedulerConfig → ℕ → FailureOutcome → FailureResult
unfolding clamp
after_throttle state cfg now outcome =
    let until = now + or_else outcome.retry_after_ms (previous_interval state cfg.schedule) in
    record {
      state = record state {
        next_due_at = some until;
        throttled_until = some until;
        rate_limit = or_else outcome.rate_limit state.rate_limit;
        last_error = some outcome.error;
      };
      circuit_opened = false;
      reason = throttled;
    }

unfoldable pub after_failure :
    ScheduleState → SchedulerConfig → ℕ → Ratio → FailureOutcome → FailureResult
unfolding after_throttle backoff_delay
after_failure state cfg now random outcome =
    let failures = state.consecutive_failures + 1 in
    let common : ScheduleState = record state {
      consecutive_failures = failures;
      throttled_until = still_throttled state.throttled_until now;
      rate_limit = or_else outcome.rate_limit state.rate_limit;
      last_error = some outcome.error;
    } in
    let probe_at = some (now + cfg.circuit.probe_every_ms) in
    if outcome.is_throttle
    then after_throttle state cfg now outcome
    else if not (is_closed state.circuit)
    then record {
      state = record common { circuit = opened; next_due_at = probe_at };
      circuit_opened = false;
      reason = probe_failed;
    }
    else if leb cfg.circuit.failures failures
    then record {
      state = record common {
        circuit = opened;
        circuit_opened_at = some now;
        next_due_at = probe_at;
      };
      circuit_opened = true;
      reason = circuit_open;
    }
    else record {
      state = record common {
        next_due_at = some (now + backoff_delay failures cfg.schedule.backoff random full);
      };
      circuit_opened = false;
      reason = backoff;
    }

-- `t !== null && t > now`
abbrev later_than : Option ℕ → ℕ → Bool
later_than none now = false
later_than (some t) now = ltb now t

unfoldable pub is_due : ScheduleState → ℕ → Bool
is_due state now =
    not (later_than state.next_due_at now) && not (later_than state.throttled_until now)

abbrev probing : CircuitState → CircuitState
probing opened = half_open
probing c = c

unfoldable pub begin_probe : ScheduleState → ScheduleState
begin_probe state = record state { circuit = probing state.circuit }

unfoldable pub time_until_due : ScheduleState → ℕ → ℕ
time_until_due state now = elim state.next_due_at [
  | none ↦ 0
  | some t ↦ max t (or_else state.throttled_until 0) - now
]

unfoldable pub make_due : ScheduleState → ℕ → ScheduleState
make_due state now = record state { next_due_at = some now; throttled_until = none }
