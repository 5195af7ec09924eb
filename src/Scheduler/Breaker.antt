-- ===== src/Scheduler/Breaker.antt =====
-- The circuit breaker: its invariant over every history, and the count that opens it.
use watukuy.Base.{
  ℕ, suc, ◌+◌, ◌≤◌, ◌<◌, ◌≡◌, refl, ◌≢◌, ◌↔◌, true, Option, none, List, [], ◌∷◌, arith, ltb,
  if◌then◌else◌,
}
use watukuy.Types.{ScheduleState, CircuitState, Ratio, closed, opened, half_open}
use watukuy.Scheduler.{
  SchedulerConfig, SuccessOutcome, FailureOutcome, after_success, after_failure, begin_probe,
  make_due, initial_schedule_state,
}
use watukuy.Runner.Halt.{halt_schedule}

-- What happens to the schedule of a key.
pub data Step (cfg : SchedulerConfig) (s : ScheduleState) : ScheduleState → Type 0 where
  succeeds :
      (now : ℕ) (random : Ratio) (o : SuccessOutcome)
      → Step cfg s (after_success s cfg now random o).state
  fails :
      (now : ℕ) (random : Ratio) (o : FailureOutcome)
      → Step cfg s (after_failure s cfg now random o).state
  probes : Step cfg s (begin_probe s)
  triggers : (now : ℕ) → Step cfg s (make_due s now)
  halts : (now : ℕ) → Step cfg s (halt_schedule s cfg.circuit now)

pub data Reach (cfg : SchedulerConfig) (s : ScheduleState) : ScheduleState → Type 0 where
  here : Reach cfg s s
  next : {t u : ScheduleState} → Reach cfg s t → Step cfg t u → Reach cfg s u

-- Closed means fewer failures in a row than the threshold and no opening time; open or half-open
-- means at least the threshold, and the opening time is known.
abbrev Agrees : ℕ → CircuitState → ℕ → Option ℕ → Type 0
Agrees limit closed failures at = (failures < limit) × (at ≡ none)
Agrees limit opened failures at = (limit ≤ failures) × (at ≢ none)
Agrees limit half_open failures at = (limit ≤ failures) × (at ≢ none)

abbrev pub IsBreaker : SchedulerConfig → ScheduleState → Type 0
IsBreaker cfg s = Agrees cfg.circuit.failures s.circuit s.consecutive_failures s.circuit_opened_at

module _ (cfg : SchedulerConfig) where
  after_failure-IsBreaker :
      (s : ScheduleState) (c : CircuitState) (now : ℕ) (random : Ratio) (o : FailureOutcome)
      → s.circuit ≡ c
      → IsBreaker cfg s
      → IsBreaker cfg (after_failure s cfg now random o).state
  unfolding after_failure
  after_failure-IsBreaker s closed now random o e h = ground arith
  after_failure-IsBreaker s opened now random o e h = ground arith
  after_failure-IsBreaker s half_open now random o e h = ground arith

  begin_probe-IsBreaker :
      (s : ScheduleState) (c : CircuitState)
      → s.circuit ≡ c
      → IsBreaker cfg s
      → IsBreaker cfg (begin_probe s)
  unfolding begin_probe
  begin_probe-IsBreaker s closed e h = rw e (rw e at h)
  begin_probe-IsBreaker s opened e h = rw e (rw e at h)
  begin_probe-IsBreaker s half_open e h = rw e (rw e at h)

  Step-IsBreaker :
      {s t : ScheduleState}
      → 0 < cfg.circuit.failures
      → Step cfg s t
      → IsBreaker cfg s
      → IsBreaker cfg t
  Step-IsBreaker p (succeeds now random o) h = unfold after_success in (p, refl)
  Step-IsBreaker {s} p (fails now random o) h =
      after_failure-IsBreaker s s.circuit now random o refl h
  Step-IsBreaker {s} p probes h = begin_probe-IsBreaker s s.circuit refl h
  Step-IsBreaker p (triggers now) h = unfold make_due in h
  Step-IsBreaker p (halts now) h = unfold halt_schedule in (omega arith, λ e. cc)

  -- In every history of successes, failures, throttles, probes, triggers and halts from the initial
  -- state: a closed circuit has fewer failures in a row than the threshold and no opening time; an
  -- open or half-open one has at least the threshold and an opening time.
  pub Reach-IsBreaker :
      (now : ℕ) {s : ScheduleState}
      → 0 < cfg.circuit.failures
      → Reach cfg (initial_schedule_state now cfg) s
      → IsBreaker cfg s
  unfolding initial_schedule_state
  Reach-IsBreaker now p here = (p, refl)
  Reach-IsBreaker now p (next r st) = Step-IsBreaker p st (Reach-IsBreaker now p r)

-- The hooks fire on the transitions alone: `circuitOpened` exactly when a closed circuit opens, and
-- `circuitClosed` exactly when one that was not closed is closed by a success.
pub circuit_flags :
    (s : ScheduleState) (cfg : SchedulerConfig) (now : ℕ) (random : Ratio) (f : FailureOutcome)
    (o : SuccessOutcome)
    → (((after_failure s cfg now random f).circuit_opened ≡ true)
        ↔ ((s.circuit ≡ closed) × ((after_failure s cfg now random f).state.circuit ≢ closed)))
      × (((after_success s cfg now random o).circuit_closed ≡ true)
          ↔ ((s.circuit ≢ closed) × ((after_success s cfg now random o).state.circuit ≡ closed)))
unfolding after_failure after_success
circuit_flags s cfg now random f o = (
  (λ h. (ground arith, λ e. ground arith), λ h. ground (arith, h.1)),
  (λ h. (λ e. ground arith, ground arith), λ h. ground (arith, h.0)),
)

-- One failed cycle: when it ended, its random draw and what it found.
pub record Failure : Type 0 where
  pub at : ℕ
  pub random : Ratio
  pub outcome : FailureOutcome

abbrev pub after_failures : SchedulerConfig → ScheduleState → List Failure → ScheduleState
after_failures cfg s [] = s
after_failures cfg s (f ∷ fs) =
    after_failures cfg (after_failure s cfg f.at f.random f.outcome).state fs

-- The failures that count: all but the throttled ones.
abbrev pub counted : List Failure → ℕ
counted [] = 0
counted (f ∷ fs) = let rest = counted fs in if f.outcome.is_throttle then rest else suc rest

counting_step :
    (cfg : SchedulerConfig) (s : ScheduleState) (f : Failure)
    → s.circuit ≡ (if ltb s.consecutive_failures cfg.circuit.failures then closed else opened)
    → let t = (after_failure s cfg f.at f.random f.outcome).state in
      (t.consecutive_failures
        ≡ (if f.outcome.is_throttle then s.consecutive_failures else suc s.consecutive_failures))
      × (t.circuit ≡ (if ltb t.consecutive_failures cfg.circuit.failures then closed else opened))
unfolding after_failure
counting_step cfg s f e = ground arith

-- A run of failures, throttled ones mixed in: only the others are counted, and the circuit is open
-- exactly when the count in a row has reached the threshold.
pub after_failures-circuit :
    (cfg : SchedulerConfig) (s : ScheduleState) (fs : List Failure)
    → s.circuit ≡ (if ltb s.consecutive_failures cfg.circuit.failures then closed else opened)
    → let t = after_failures cfg s fs in
      (t.consecutive_failures ≡ s.consecutive_failures + counted fs)
      × (t.circuit ≡ (
          if ltb (s.consecutive_failures + counted fs) cfg.circuit.failures
          then closed
          else opened))
after_failures-circuit cfg s [] e = ground arith
after_failures-circuit cfg s (f ∷ fs) e =
    let one = counting_step cfg s f e in
    let rest =
      after_failures-circuit cfg (after_failure s cfg f.at f.random f.outcome).state fs one.1 in
    ground (arith, one, rest)
