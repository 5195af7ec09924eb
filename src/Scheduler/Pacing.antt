-- ===== src/Scheduler/Pacing.antt =====
-- Pacing by the API's rate-limit headers.
use native.Mathlib.Nat.{le_trans, mul-le-mul_left}
use watukuy.Base.{
  inl, inr, Bool-cases, leb, leb→le, ℕ, ◌+◌, ◌-◌, ◌*◌, ◌≤◌, ◌≡◌, refl, max, some, arith,
}
use watukuy.Types.{ScheduleState, Ratio, RateLimitInfo}
use watukuy.Base.Rounding.{le-mul-ceil_div}
use watukuy.Scheduler.{
  SchedulerConfig, SuccessOutcome, after_success, wait_before, apply_pacing, spacing_until,
}

spacing_until_covers :
    (remaining reset_at now : ℕ)
    → reset_at - now ≤ max remaining 1 * spacing_until remaining reset_at now
unfolding spacing_until
spacing_until_covers remaining reset_at now =
    ground (arith, le-mul-ceil_div (reset_at - now) (max remaining 1))

-- While the window is open, the requests that remain, made at the paced wait, last until it
-- resets; the wait is never shortened.
pub apply_pacing_covers :
    (interval now remaining reset_at : ℕ) (info : RateLimitInfo)
    → info.remaining ≡ some remaining
    → info.reset_at ≡ some reset_at
    → (reset_at - now ≤ max remaining 1 * apply_pacing interval (some info) now)
      × (interval ≤ apply_pacing interval (some info) now)
unfolding apply_pacing
apply_pacing_covers interval now remaining reset_at info p q =
    rw (p, q)
      (elim (Bool-cases (leb reset_at now)) [
        | inl past ↦ rw past (omega (arith, leb→le reset_at now past), omega arith)
        | inr ahead ↦ rw ahead (
          le_trans (spacing_until_covers remaining reset_at now)
              (mul-le-mul_left (max remaining 1) (stretched interval)),
          omega arith,
        )
      ])
  where
    stretched :
        (base : ℕ)
        → spacing_until remaining reset_at now ≤ max base (spacing_until remaining reset_at now)
    stretched base = omega arith

exhausted_wait :
    (base now reset_at : ℕ) (info : RateLimitInfo)
    → info.remaining ≡ some 0
    → info.reset_at ≡ some reset_at
    → reset_at ≤ now + apply_pacing base (some info) now
exhausted_wait base now reset_at info p q =
    omega (arith, apply_pacing_covers base now 0 reset_at info p q)

-- After a successful cycle whose headers say that no request remains, the next run, a catch-up
-- run too, is not before the window resets.
pub after_success_exhausted :
    (s : ScheduleState) (cfg : SchedulerConfig) (now : ℕ) (random : Ratio) (o : SuccessOutcome)
    (info : RateLimitInfo) (reset_at : ℕ)
    → o.rate_limit ≡ some info
    → info.remaining ≡ some 0
    → info.reset_at ≡ some reset_at
    → (due : ℕ) × ((after_success s cfg now random o).state.next_due_at ≡ some due)
      × (reset_at ≤ due)
unfolding after_success
after_success_exhausted s cfg now random o info reset_at e p q =
    let base = wait_before s cfg random o in
    (
      now + apply_pacing base o.rate_limit now,
      refl,
      rw e (exhausted_wait base now reset_at info p q),
    )
