-- ===== src/Scheduler/Due.antt =====
-- When a key is due, and how the wake-up timer agrees with it.
use watukuy.Base.{ℕ, ◌+◌, ◌<◌, ◌≡◌, true, false, none, some, arith, leb, nat_eqb}
use watukuy.Types.{ScheduleState, Ratio}
use watukuy.Scheduler.{
  SchedulerConfig, FailureOutcome, after_failure, is_due, time_until_due, make_due,
}

-- A key that is due has no time to wait; where a due time is set, the time to wait is 0 exactly
-- when the key is due.
pub time_until_due-is_due :
    (s : ScheduleState) (now : ℕ)
    → (is_due s now ≡ true → time_until_due s now ≡ 0)
      × ((t : ℕ) → s.next_due_at ≡ some t → is_due s now ≡ nat_eqb (time_until_due s now) 0)
unfolding is_due time_until_due
time_until_due-is_due s now = (λ h. ground arith, λ t e. ground arith)

-- A row with no due time that is still throttled: the timer says now, the key is not due.
pub time_until_due_unscheduled :
    (s : ScheduleState) (now t : ℕ)
    → s.next_due_at ≡ none
    → s.throttled_until ≡ some t
    → now < t
    → (time_until_due s now ≡ 0) × (is_due s now ≡ false)
unfolding is_due time_until_due
time_until_due_unscheduled s now t e f h = ground arith

-- After a throttled cycle the key is due at exactly the told time and no earlier, by both the due
-- time and the throttle window; the failure count and the circuit stay as they were.
pub after_failure_throttled :
    (s : ScheduleState) (cfg : SchedulerConfig) (now : ℕ) (random : Ratio) (o : FailureOutcome)
    (later wait : ℕ)
    → o.is_throttle ≡ true
    → o.retry_after_ms ≡ some wait
    → let r = (after_failure s cfg now random o).state in
      (is_due r later ≡ leb (now + wait) later)
      × (r.consecutive_failures ≡ s.consecutive_failures)
      × (r.circuit ≡ s.circuit)
      × (r.interval_ms ≡ s.interval_ms)
unfolding after_failure is_due
after_failure_throttled s cfg now random o later wait h e = ground arith

-- After a forced trigger the key is due from that moment on, whatever held it back.
pub make_due-is_due :
    (s : ScheduleState) (now later : ℕ) → is_due (make_due s now) later ≡ leb now later
unfolding is_due make_due
make_due-is_due s now later = ground arith
