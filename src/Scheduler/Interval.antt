-- ===== src/Scheduler/Interval.antt =====
-- The interval of the adaptive scheduler: its bounds, its convergence, and the jitter around it.
use watukuy.Base.{
  ℕ, zero, suc, ◌+◌, ◌-◌, ◌*◌, ◌^◌, ◌≤◌, ◌<◌, ◌≡◌, refl, ap, min, max, true, false, some, List, [],
  ◌∷◌, arith, All, length, or_else,
}
use watukuy.Types.{ScheduleState, Schedule, Ratio, IsRatio, Backoff}
use native.Mathlib.Nat.{
  mul-le-mul_left, mul-le-mul_right, le_of_mul-le-mul_right, mul-pos, mul-le-mul, le_trans,
  pow-zero, pow-suc,
}
use native.Mathlib.Decide.{dec_le}
use watukuy.Base.Rounding.{round_div, round_div_bounds}
use watukuy.Scheduler.{
  SchedulerConfig, SuccessOutcome, plan_interval, clamp, after_success, jittered, backoff_delay,
  capped_delay, JitterMode, full, no_jitter, previous_interval,
}

clamp_bounds : (v lo hi : ℕ) → lo ≤ hi → (lo ≤ clamp v lo hi) × (clamp v lo hi ≤ hi)
unfolding clamp
clamp_bounds v lo hi h = omega arith

plan_interval_bounds :
    (sch : Schedule) (previous : ℕ) (o : SuccessOutcome)
    → sch.min_ms ≤ previous
    → previous ≤ sch.max_ms
    → (sch.min_ms ≤ (plan_interval sch previous o).0)
      × ((plan_interval sch previous o).0 ≤ sch.max_ms)
unfolding plan_interval
plan_interval_bounds sch previous o h k = ground arith

-- A successful cycle leaves an interval between `minMs` and `maxMs`.
pub after_success-interval :
    (s : ScheduleState) (cfg : SchedulerConfig) (now : ℕ) (random : Ratio) (o : SuccessOutcome)
    → cfg.schedule.min_ms ≤ cfg.schedule.max_ms
    → (v : ℕ) × ((after_success s cfg now random o).state.interval_ms ≡ some v)
      × (cfg.schedule.min_ms ≤ v)
      × (v ≤ cfg.schedule.max_ms)
unfolding after_success
after_success-interval s cfg now random o h =
    let c =
      clamp_bounds (or_else s.interval_ms cfg.schedule.min_ms) cfg.schedule.min_ms
        cfg.schedule.max_ms h in
    let b = plan_interval_bounds cfg.schedule (previous_interval s cfg.schedule) o c.0 c.1 in
    ((plan_interval cfg.schedule (previous_interval s cfg.schedule) o).0, refl, b.0, b.1)

-- One successful cycle: when it ended, its random draw and what it found.
pub record Cycle : Type 0 where
  pub at : ℕ
  pub random : Ratio
  pub outcome : SuccessOutcome

-- The state after a run of successful cycles.
abbrev pub after_cycles : SchedulerConfig → ScheduleState → List Cycle → ScheduleState
after_cycles cfg s [] = s
after_cycles cfg s (c ∷ cs) =
    after_cycles cfg (after_success s cfg c.at c.random c.outcome).state cs

abbrev pub IsIdle : Cycle → Type 0
IsIdle c = (c.outcome.truncated ≡ false) × (c.outcome.had_events ≡ false)

abbrev pub IsBusy : Cycle → Type 0
IsBusy c =
    (c.outcome.truncated ≡ false) × (c.outcome.had_events ≡ true) × (c.outcome.not_modified ≡ false)

module _ (cfg : SchedulerConfig) where
  idle_step :
      (s : ScheduleState) (c : Cycle) (n : ℕ)
      → cfg.schedule.adaptive ≡ true
      → 0 < cfg.schedule.min_ms
      → cfg.schedule.min_ms ≤ cfg.schedule.max_ms
      → IsIdle c
      → min cfg.schedule.max_ms n ≤ previous_interval s cfg.schedule
      → min cfg.schedule.max_ms (n + 1)
        ≤ previous_interval (after_success s cfg c.at c.random c.outcome).state cfg.schedule
  unfolding after_success
  idle_step s c n a p h i m = ground arith

  busy_step :
      (s : ScheduleState) (c : Cycle) (n : ℕ)
      → cfg.schedule.adaptive ≡ true
      → 0 < cfg.schedule.min_ms
      → cfg.schedule.min_ms ≤ cfg.schedule.max_ms
      → IsBusy c
      → previous_interval s cfg.schedule ≤ max cfg.schedule.min_ms (n + 1)
      → previous_interval (after_success s cfg c.at c.random c.outcome).state cfg.schedule
        ≤ max cfg.schedule.min_ms n
  unfolding after_success
  busy_step s c n a p h i m = ground arith

  idle_run :
      (s : ScheduleState) (cs : List Cycle) (n : ℕ)
      → cfg.schedule.adaptive ≡ true
      → 0 < cfg.schedule.min_ms
      → cfg.schedule.min_ms ≤ cfg.schedule.max_ms
      → All IsIdle cs
      → min cfg.schedule.max_ms n ≤ previous_interval s cfg.schedule
      → min cfg.schedule.max_ms (n + length cs)
        ≤ previous_interval (after_cycles cfg s cs) cfg.schedule
  idle_run s [] n a p h i m = omega arith
  idle_run s (c ∷ cs) n a p h i m = omega (
    arith,
    idle_run (after_success s cfg c.at c.random c.outcome).state cs (n + 1) a p h i.1
        (idle_step s c n a p h i.0 m),
  )

  busy_run :
      (s : ScheduleState) (cs : List Cycle) (n : ℕ)
      → cfg.schedule.adaptive ≡ true
      → 0 < cfg.schedule.min_ms
      → cfg.schedule.min_ms ≤ cfg.schedule.max_ms
      → All IsBusy cs
      → previous_interval s cfg.schedule ≤ max cfg.schedule.min_ms (n + length cs)
      → previous_interval (after_cycles cfg s cs) cfg.schedule ≤ max cfg.schedule.min_ms n
  busy_run s [] n a p h i m = omega arith
  busy_run s (c ∷ cs) n a p h i m =
      busy_run (after_success s cfg c.at c.random c.outcome).state cs n a p h i.1
        (busy_step s c (n + length cs) a p h i.0 (omega arith))

  -- Idle cycles drive the interval of an adaptive poller up to `maxMs`, and cycles with events
  -- drive it down to `minMs`, from any state: after at most `maxMs - minMs` cycles it is there.
  pub after_cycles-converge :
      (s : ScheduleState) (cs : List Cycle)
      → cfg.schedule.adaptive ≡ true
      → 0 < cfg.schedule.min_ms
      → cfg.schedule.min_ms ≤ cfg.schedule.max_ms
      → cfg.schedule.max_ms - cfg.schedule.min_ms ≤ length cs
      → (All IsIdle cs
          → previous_interval (after_cycles cfg s cs) cfg.schedule ≡ cfg.schedule.max_ms)
        × (All IsBusy cs
            → previous_interval (after_cycles cfg s cs) cfg.schedule ≡ cfg.schedule.min_ms)
  unfolding clamp
  after_cycles-converge s cs a p h k = (
    λ i. omega (arith, idle_run s cs cfg.schedule.min_ms a p h i (omega arith)),
    λ i. omega (arith, busy_run s cs cfg.schedule.min_ms a p h i (omega arith)),
  )

-- The numerator of the jitter factor, `den * den + 2 r num - den num`, within its extremes.
jitter_factor_bounds :
    (D j R r : ℕ)
    → r < R
    → j ≤ D
    → (D * R + 2 * r * j - R * j ≤ (D + j) * R) × ((D - j) * R ≤ D * R + 2 * r * j - R * j)
jitter_factor_bounds D j R r h k =
    let e : D - j + j ≡ D = omega arith in
    let scaled = ap (λ (t : ℕ). t * R) e in
    let up = mul-le-mul_right j (let h' : r ≤ R = omega arith in h') in
    (omega (arith, up), omega (arith, scaled))

-- The rounding of `I * w / (J * R)`, for a factor `w` between two multiples of `R`.
rounded_between :
    (I D R w lo hi : ℕ)
    → 0 < D
    → 0 < R
    → w ≤ hi * R
    → lo * R ≤ w
    → (2 * D * round_div (I * w) (D * R) ≤ 2 * (I * hi) + D)
      × (2 * (I * lo) ≤ 2 * D * round_div (I * w) (D * R) + D)
rounded_between I D R w lo hi p q up down =
    let b = round_div_bounds (I * w) (D * R) (mul-pos p q) in
    let u = mul-le-mul_left I up in
    let d = mul-le-mul_left I down in
    (le_of_mul-le-mul_right (omega (arith, b, u)) q, le_of_mul-le-mul_right (omega (arith, b, d)) q)

-- The jittered wait lies within the fraction `jitter` of the interval, up to rounding: the wait
-- times the denominator is at most `interval * (den + num)`, at least `interval * (den - num)`,
-- each to within half.
pub jittered_bounds :
    (interval : ℕ) (jitter random : Ratio)
    → IsRatio jitter
    → jitter.num ≤ jitter.den
    → random.num < random.den
    → (2 * jitter.den * jittered interval jitter random
        ≤ 2 * (interval * (jitter.den + jitter.num)) + jitter.den)
      × (2 * (interval * (jitter.den - jitter.num))
          ≤ 2 * jitter.den * jittered interval jitter random + jitter.den)
unfolding jittered
jittered_bounds interval jitter random d f r =
    let w = jitter_factor_bounds jitter.den jitter.num random.den random.num r f in
    let b =
      rounded_between interval jitter.den random.den
        (jitter.den * random.den + 2 * random.num * jitter.num - random.den * jitter.num)
        (jitter.den - jitter.num) (jitter.den + jitter.num) d (omega arith) w.0 w.1 in
    ground (arith, b)

capped_delay_bounds :
    (n : ℕ) (b : Backoff) → (capped_delay n b).num ≤ b.max_ms * (capped_delay n b).den
unfolding capped_delay
capped_delay_bounds n b = omega arith

round_div-le : (n d m : ℕ) → 0 < d → n ≤ m * d → round_div n d ≤ m
round_div-le n d m h k = elim (dec_le (round_div n d) m) [
  | yes l ↦ l
  | no l ↦
      let above : m + 1 ≤ round_div n d = omega arith in
      let b = round_div_bounds n d h in
      let scaled = mul-le-mul_left (2 * d) above in absurd (omega (arith, b, scaled))
]

pow_pos : (b n : ℕ) → 0 < b → 0 < b ^ n
pow_pos b zero h = rw pow-zero (omega arith)
pow_pos b (suc n) h = rw pow-suc (mul-pos (pow_pos b n h) h)

-- The delay after a failure never exceeds the backoff's `max`, whatever the draw and the attempt.
pub backoff_delay-le-max :
    (attempt : ℕ) (b : Backoff) (random : Ratio) (mode : JitterMode)
    → IsRatio b.factor
    → random.num < random.den
    → backoff_delay attempt b random mode ≤ b.max_ms
unfolding backoff_delay
backoff_delay-le-max attempt b random full f r =
    let c = capped_delay_bounds (max 1 attempt) b in
    let d = pow_pos b.factor.den (max 1 attempt - 1) f in
    let drawn : random.num ≤ random.den = omega arith in
    round_div-le _ _ b.max_ms (mul-pos (omega arith) d)
      (le_trans (mul-le-mul drawn c) (omega arith))
backoff_delay-le-max attempt b random no_jitter f r =
    round_div-le _ _ b.max_ms (pow_pos b.factor.den (max 1 attempt - 1) f)
      (capped_delay_bounds (max 1 attempt) b)
