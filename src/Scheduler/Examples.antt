-- ===== src/Scheduler/Examples.antt =====
-- Runs of src/scheduler/scheduler.ts at concrete inputs, and its theorems at inputs that meet their
-- hypotheses.
use watukuy.Base.{◌-◌, ◌*◌, ◌≤◌, ◌≡◌, refl, max, true, false, none, some, [], ◌∷◌, arith, leb, All}
use watukuy.Types.{ScheduleState, Ratio, Backoff, RateLimitInfo, SerializedError, opened, ietf}
use watukuy.Scheduler.{
  SchedulerConfig, SuccessOutcome, FailureOutcome, initial_schedule_state, after_failure,
  apply_pacing, jittered, backoff_delay, previous_interval, full, is_due, make_due, begin_probe,
}
use watukuy.Scheduler.Interval.{Cycle, after_cycles, IsIdle, IsBusy, after_cycles-converge}
use watukuy.Scheduler.Pacing.{apply_pacing_covers}
use watukuy.Scheduler.Breaker.{
  Reach, here, next, fails, probes, IsBreaker, Reach-IsBreaker, Failure, after_failures,
  after_failures-circuit,
}
use watukuy.Scheduler.Due.{make_due-is_due}

abbrev quarter : Ratio
quarter = record { num = 1; den = 4 }

abbrev tenth : Ratio
tenth = record { num = 1; den = 10 }

abbrev doubling : Backoff
doubling = record { base_ms = 1000; factor = record { num = 2; den = 1 }; max_ms = 600_000 }

abbrev config : SchedulerConfig
config = record {
  schedule = record {
    min_ms = 5000;
    max_ms = 8000;
    adaptive = true;
    jitter = tenth;
    backoff = doubling;
  };
  circuit = record { failures = 2; probe_every_ms = 60_000 };
}

-- A poller whose interval has room for three steps.
abbrev narrow : SchedulerConfig
narrow = record config { schedule = record config.schedule { min_ms = 2; max_ms = 4 } }

abbrev fresh : ScheduleState
fresh = initial_schedule_state 100 config

abbrev drained_window : RateLimitInfo
drained_window = record {
  limit = some 100;
  remaining = some 0;
  reset_at = some 60_100;
  policy = none;
  source = ietf;
}

abbrev idle_outcome : SuccessOutcome
idle_outcome = record {
  had_events = false;
  not_modified = false;
  truncated = false;
  rate_limit = none;
  summary = none;
}

abbrev idle_cycle : Cycle
idle_cycle = record { at = 200; random = quarter; outcome = idle_outcome }

abbrev boom : SerializedError
boom = record {
  frame = record { name = "Error"; message = "boom"; code = none; status = none };
  causes = [];
}

abbrev failed : FailureOutcome
failed = record { error = boom; retry_after_ms = none; is_throttle = false; rate_limit = none }

abbrev throttled_outcome : FailureOutcome
throttled_outcome = record failed { retry_after_ms = some 3000; is_throttle = true }

abbrev failure : Failure
failure = record { at = 300; random = quarter; outcome = failed }

abbrev throttle : Failure
throttle = record failure { outcome = throttled_outcome }

-- `jittered(10_000, 0.1, random)` with the draw 1/4 is 9_500; without jitter it is the interval.
jittered_runs :
    (jittered 10_000 tenth quarter ≡ 9500)
    × (jittered 10_000 (record { num = 0; den = 1 }) quarter ≡ 10_000)
unfolding jittered
jittered_runs = (refl, refl)

-- The documented delays of the third attempt: 4_000 in full, a quarter of it under the draw 1/4.
backoff_delay_runs : backoff_delay 3 doubling quarter full ≡ 1000
unfolding backoff_delay
backoff_delay_runs = refl

-- The documented pacing: no request left waits for the reset.
apply_pacing_runs : apply_pacing 1000 (some drained_window) 100 ≡ 60_000
unfolding apply_pacing
apply_pacing_runs = refl

after_cycles-converge_example :
    (All IsIdle (idle_cycle ∷ idle_cycle ∷ [])
      → previous_interval (after_cycles narrow fresh (idle_cycle ∷ idle_cycle ∷ [])) narrow.schedule
        ≡ 4)
    × (All IsBusy (idle_cycle ∷ idle_cycle ∷ [])
        → previous_interval
            (after_cycles narrow fresh (idle_cycle ∷ idle_cycle ∷ []))
            narrow.schedule
          ≡ 2)
after_cycles-converge_example =
    after_cycles-converge narrow fresh (idle_cycle ∷ idle_cycle ∷ []) refl (omega arith)
      (omega arith) (omega arith)

apply_pacing_covers_example :
    (60_100 - 100 ≤ max 0 1 * apply_pacing 1000 (some drained_window) 100)
    × (1000 ≤ apply_pacing 1000 (some drained_window) 100)
apply_pacing_covers_example = apply_pacing_covers 1000 100 0 60_100 drained_window refl refl

abbrev after_two : ScheduleState
after_two =
    (after_failure (after_failure fresh config 300 quarter failed).state config 400 quarter
      failed).state

two_failures : Reach config fresh (begin_probe after_two)
two_failures = next (next (next here (fails 300 quarter failed)) (fails 400 quarter failed)) probes

Reach-IsBreaker_example : IsBreaker config (begin_probe after_two)
Reach-IsBreaker_example = Reach-IsBreaker config 100 (omega arith) two_failures

after_failures-circuit_example :
    ((after_failures config fresh (failure ∷ throttle ∷ failure ∷ [])).consecutive_failures ≡ 2)
    × ((after_failures config fresh (failure ∷ throttle ∷ failure ∷ [])).circuit ≡ opened)
unfolding initial_schedule_state
after_failures-circuit_example =
    after_failures-circuit config fresh (failure ∷ throttle ∷ failure ∷ []) refl

make_due-is_due_example : is_due (make_due fresh 50) 49 ≡ leb 50 49
make_due-is_due_example = make_due-is_due fresh 50 49
