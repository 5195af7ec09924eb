-- ===== src/Budget/Retry.antt =====
-- src/budget/memory-store.ts: the time that a refused caller is told is exact.
use watukuy.Base.{
  ℕ, zero, suc, ◌+◌, ◌-◌, ◌*◌, ◌≤◌, ◌<◌, max, Option, none, some, arith, ◌≡◌, refl, ◌∙◌, ap,
  Bool-cases, inl, inr, nat_eqb, leb, ltb, true, false, Bool, subst, le→leb,
}
use watukuy.Base.Rounding.{le-mul-ceil_div, mul-ceil_div-lt}
use native.Mathlib.Nat.{mul-le-mul_right}
use watukuy.Budget.{
  BudgetPolicy, Bucket, TakeResult, granted, denied, refill, draw, take_from, retry_in,
}

covers :
    (deficit requests w : ℕ)
    → 0 < requests
    → requests < 1_000_000_000
    → 0 < deficit
    → deficit * 1_000_000_000 - requests ≤ requests * 1_000_000_000 * w
    → deficit ≤ max 1 w * requests
covers deficit requests zero p q r k = absurd (omega (arith, p, q, r, k))
covers deficit requests (suc w) p q r k = grind (arith, p, q, r, k)

least :
    (deficit requests d w : ℕ)
    → 0 < requests
    → 0 < deficit
    → requests * 1_000_000_000 * w < deficit * 1_000_000_000 - requests + requests * 1_000_000_000
    → d < max 1 w
    → d * requests < deficit
least deficit requests zero w p r k h = omega (arith, r)
least deficit requests (suc d) w p r k h =
    grind (arith, p, r, k, ap (λ x. requests * x) (beyond (w - suc (suc d)) refl))
  where
    beyond : (e : ℕ) → w - suc (suc d) ≡ e → w ≡ suc (suc d) + e
    beyond e q = omega (arith, q, h)

-- The refill covers the deficit at the time told, and at no whole millisecond before it. The tolerance
-- of 1e-9 does not show while fewer than 10^9 requests are allowed.
retry_in-covers :
    (deficit requests : ℕ)
    → 0 < requests
    → requests < 1_000_000_000
    → 0 < deficit
    → deficit ≤ retry_in deficit requests * requests
unfolding retry_in
retry_in-covers deficit requests p q r =
    covers deficit requests _ p q r (
      le-mul-ceil_div (deficit * 1_000_000_000 - requests) (requests * 1_000_000_000) (omega arith))

retry_in-least :
    (deficit requests d : ℕ)
    → 0 < requests
    → requests < 1_000_000_000
    → 0 < deficit
    → d < retry_in deficit requests
    → d * requests < deficit
unfolding retry_in
retry_in-least deficit requests d p q r h =
    least deficit requests d _ p r
      (mul-ceil_div-lt (deficit * 1_000_000_000 - requests) (requests * 1_000_000_000)
        (omega arith))
      h

module _ (policy : BudgetPolicy) (cost : ℕ) where
  -- The bucket as it stands when the take is refused, at a time that is not before its last update.
  Refused : ℕ → Option Bucket → Bucket → ℕ → Type 0
  Refused now o b wait =
      (take_from cost policy now o ≡ (b, denied wait))
      × ((old : Bucket) → o ≡ some old → old.updated_at ≤ now)

  refill-time :
      (now capacity : ℕ) (o : Option Bucket)
      → ((old : Bucket) → o ≡ some old → old.updated_at ≤ now)
      → (refill policy now capacity o).updated_at ≡ now
  unfolding refill
  refill-time now capacity none h = refl
  refill-time now capacity (some b) h = ground (arith, h b refl)

  draw-denied :
      (c b : Bucket) (wait : ℕ)
      → draw cost policy c ≡ (b, denied wait)
      → (b ≡ c)
        × (c.scaled < cost * policy.per_ms)
        × (wait ≡ retry_in (cost * policy.per_ms - c.scaled) policy.requests)
  unfolding draw
  draw-denied c b wait h = elim (Bool-cases (leb (cost * policy.per_ms) c.scaled)) [
    | inl t ↦ absurd (cc (rw t at h))
    | inr t ↦ let k = rw t at h in (cc k, ground arith, cc k)
  ]

  refused_lem :
      (now : ℕ) (o : Option Bucket) (b : Bucket) (wait : ℕ)
      → Refused now o b wait
      → (nat_eqb cost 0 ≡ false)
        × (b.updated_at ≡ now)
        × (b.scaled < cost * policy.per_ms)
        × (wait ≡ retry_in (cost * policy.per_ms - b.scaled) policy.requests)
  unfolding Refused take_from
  refused_lem now o b wait (h, k) = elim (Bool-cases (nat_eqb cost 0)) [
    | inl t ↦ absurd (cc (rw t at h))
    | inr t ↦
        let (e, l, w) =
          draw-denied (refill policy now (max policy.burst cost) o) b wait (rw t at h) in
        (
          t,
          ap (λ (x : Bucket). x.updated_at) e ∙ refill-time now (max policy.burst cost) o k,
          rw e l,
          rw e w,
        )
  ]

  abbrev pub is_granted : TakeResult → Bool
  is_granted (granted _) = true
  is_granted (denied _) = false

  is_granted-draw :
      (b : Bucket) → is_granted (draw cost policy b).1 ≡ leb (cost * policy.per_ms) b.scaled
  unfolding draw
  is_granted-draw b = ground arith

  le-capacity : cost * policy.per_ms ≤ max policy.burst cost * policy.per_ms
  le-capacity = mul-le-mul_right policy.per_ms (omega arith)

  refill-later :
      (b : Bucket) (d : ℕ)
      → b.scaled < cost * policy.per_ms
      → leb
          (cost * policy.per_ms)
          (refill policy (b.updated_at + d) (max policy.burst cost) (some b)).scaled
        ≡ leb (cost * policy.per_ms) (b.scaled + d * policy.requests)
  unfolding refill
  refill-later b d l = elim (Bool-cases (ltb b.updated_at (b.updated_at + d))) [
    | inl t ↦
        rw t (ground (arith, le-capacity, ap (λ x. x * policy.requests) (passed b.updated_at)))
    | inr t ↦ rw t (ground (arith, l, le-capacity, ap (λ x. x * policy.requests) (none_passed t)))
  ]
    where
      passed : (u : ℕ) → u + d - u ≡ d
      passed u = omega arith

      none_passed : ltb b.updated_at (b.updated_at + d) ≡ false → d ≡ 0
      none_passed t = ground arith

  -- The same take, `d` milliseconds after it was refused.
  later :
      (b : Bucket) (d : ℕ)
      → nat_eqb cost 0 ≡ false
      → b.scaled < cost * policy.per_ms
      → is_granted (take_from cost policy (b.updated_at + d) (some b)).1
        ≡ leb (cost * policy.per_ms) (b.scaled + d * policy.requests)
  unfolding take_from
  later b d t l = rw t (
      is_granted-draw (refill policy (b.updated_at + d) (max policy.burst cost) (some b))
      ∙ refill-later b d l)

  -- A refused caller that comes back after the time it was told is served, and at no time before that,
  -- if nobody else took from the bucket. Time has not run backwards; requests are between 1 and 10^9.
  pub take_from_retry :
      (now : ℕ) (o : Option Bucket) (b : Bucket) (wait : ℕ)
      → 0 < policy.requests
      → policy.requests < 1_000_000_000
      → ((old : Bucket) → o ≡ some old → old.updated_at ≤ now)
      → take_from cost policy now o ≡ (b, denied wait)
      → (is_granted (take_from cost policy (now + wait) (some b)).1 ≡ true)
        × ((d : ℕ) → d < wait → is_granted (take_from cost policy (now + d) (some b)).1 ≡ false)
  unfolding Refused
  take_from_retry now o b wait p q k h =
      let (t, e, l, w) = refused_lem now o b wait (h, k) in
      (
        subst (λ n. is_granted (take_from cost policy (n + wait) (some b)).1 ≡ true) e
            (later b wait t l ∙ enough b l wait w),
        λ d m.
            subst (λ n. is_granted (take_from cost policy (n + d) (some b)).1 ≡ false) e
              (later b d t l ∙ too_soon b l wait d w m),
      )
    where
      enough :
          (b : Bucket)
          → b.scaled < cost * policy.per_ms
          → (wait : ℕ) → wait ≡ retry_in (cost * policy.per_ms - b.scaled) policy.requests
          → leb (cost * policy.per_ms) (b.scaled + wait * policy.requests) ≡ true
      enough b l wait w =
          let c =
            retry_in-covers (cost * policy.per_ms - b.scaled) policy.requests p q
              (omega (arith, l)) in
          le→leb _ _ (omega (arith, l, c, ap (λ x. x * policy.requests) w))

      too_soon :
          (b : Bucket)
          → b.scaled < cost * policy.per_ms
          → (wait d : ℕ) → wait ≡ retry_in (cost * policy.per_ms - b.scaled) policy.requests
          → d < wait
          → leb (cost * policy.per_ms) (b.scaled + d * policy.requests) ≡ false
      too_soon b l wait d w m =
          let c =
            retry_in-least (cost * policy.per_ms - b.scaled) policy.requests d p q
              (omega (arith, l)) (omega (arith, w, m)) in
          ground (arith, l, c)
