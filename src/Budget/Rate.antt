-- ===== src/Budget/Rate.antt =====
-- src/budget/memory-store.ts: a bucket never lets through more than its burst and its refill.
use watukuy.Base.{
  All, if◌then◌else◌, ℕ, ◌+◌, ◌-◌, ◌*◌, ◌≤◌, max, String, string_eq, Option, none, some, List, [],
  ◌∷◌, arith, ◌≡◌, refl, ◌∙◌, ap, Bool-cases, inl, inr, nat_eqb, leb, ltb,
}
use watukuy.Base.Map
use watukuy.Budget.{
  BudgetPolicy, Bucket, Buckets, TakeResult, granted, denied, refill, draw, take_from, take,
}

-- One call of `take` on a name: its cost and its time.
abbrev pub Call : Type 0
Call = ℕ × ℕ

abbrev charged : ℕ → TakeResult → ℕ
charged cost (granted _) = cost
charged cost (denied _) = 0

module _ (name : String) (policy : BudgetPolicy) where
  -- The tokens that a run of calls takes, and the latest time of the run.
  unfoldable pub tokens : List Call → Buckets → ℕ
  tokens [] buckets = 0
  tokens ((cost, now) ∷ calls) buckets =
      let r = take name cost policy now buckets in charged cost r.1 + tokens calls r.0

  abbrev pub last_time : ℕ → List Call → ℕ
  last_time t [] = t
  last_time t ((cost, now) ∷ calls) = last_time (max t now) calls

  refill-balance :
      (capacity now : ℕ) (b : Bucket)
      → let r = refill policy now capacity (some b) in
        (r.scaled ≤ b.scaled + (r.updated_at - b.updated_at) * policy.requests)
        × (r.updated_at ≡ max b.updated_at now)
  unfolding refill
  refill-balance capacity now b = elim (Bool-cases (ltb b.updated_at now)) [
    | inl t ↦ rw t (omega arith, ground arith)
    | inr t ↦ rw t (ground arith, ground arith)
  ]

  refill-full :
      (capacity now : ℕ)
      → let r = refill policy now capacity none in
        (r.scaled ≤ policy.burst * policy.per_ms) × (r.updated_at ≡ now)
  unfolding refill
  refill-full capacity now = (omega arith, refl)

  -- A take moves tokens from the bucket, as it is filled at that time, to the caller.
  capacity_of : ℕ → ℕ
  capacity_of cost = if nat_eqb cost 0 then policy.burst else max policy.burst cost

  draw-charge :
      (cost : ℕ) (b : Bucket)
      → let r = draw cost policy b in
        (charged cost r.1 * policy.per_ms + r.0.scaled ≡ b.scaled) × (r.0.updated_at ≡ b.updated_at)
  unfolding draw
  draw-charge cost b = elim (Bool-cases (leb (cost * policy.per_ms) b.scaled)) [
    | inl t ↦ rw t (ground (arith, t), refl)
    | inr t ↦ rw t (omega arith, refl)
  ]

  take_from-charge :
      (cost now : ℕ) (o : Option Bucket)
      → let r = take_from cost policy now o in
        let b = refill policy now (capacity_of cost) o in
        (charged cost r.1 * policy.per_ms + r.0.scaled ≡ b.scaled) × (r.0.updated_at ≡ b.updated_at)
  unfolding take_from capacity_of
  take_from-charge cost now o = elim (Bool-cases (nat_eqb cost 0)) [
    | inl t ↦ rw t (ground (arith, t), refl)
    | inr t ↦ rw t (draw-charge cost (refill policy now (max policy.burst cost) o))
  ]

  distribute : (a b k : ℕ) → (a + b) * k ≡ a * k + b * k
  distribute a b k = grind arith

  split : (a b c k : ℕ) → a ≤ b → b ≤ c → (c - a) * k ≡ (b - a) * k + (c - b) * k
  split a b c k p q = ap (λ x. x * k) (sum p q) ∙ distribute (b - a) (c - b) k
    where
      sum : a ≤ b → b ≤ c → c - a ≡ (b - a) + (c - b)
      sum p q = omega (arith, p, q)

  -- What the bucket and its past calls amount to: never more than the burst and the refill since the
  -- first call, at `start`.
  Balanced : ℕ → ℕ → ℕ → Option Bucket → Type 0
  Balanced start time spent none = spent ≡ 0
  Balanced start time spent (some b) =
      (spent * policy.per_ms + b.scaled
        ≤ policy.burst * policy.per_ms + (b.updated_at - start) * policy.requests)
      × (start ≤ b.updated_at)
      × (b.updated_at ≤ time)

  take_from-Balanced :
      (start time spent cost now : ℕ) (o : Option Bucket)
      → start ≤ now
      → Balanced start time spent o
      → let r = take_from cost policy now o in
        Balanced start (max time now) (charged cost r.1 + spent) (some r.0)
  unfolding Balanced
  take_from-Balanced start time spent cost now none l h =
      let (p, q) = take_from-charge cost now none in
      let (f, e) = refill-full (capacity_of cost) now in
      (
        omega (
          arith,
          p,
          f,
          distribute (charged cost (take_from cost policy now none).1) spent policy.per_ms,
          ap (λ x. x * policy.per_ms) h,
        ),
        omega (arith, q, e, l),
        omega (arith, q, e),
      )
  take_from-Balanced start time spent cost now (some b) l h =
      let (p, q) = take_from-charge cost now (some b) in
      let (u, v) = refill-balance (capacity_of cost) now b in
      (
        omega (
          arith,
          p,
          u,
          h.0,
          ap (λ t. (t - start) * policy.requests) q,
          distribute (charged cost (take_from cost policy now (some b)).1) spent policy.per_ms,
          split start b.updated_at (refill policy now (capacity_of cost) (some b)).updated_at
              policy.requests h.1 (omega (arith, v)),
        ),
        omega (arith, q, v, h.1),
        omega (arith, q, v, h.2),
      )

  abbrev pub OnTime : ℕ → Call → Type 0
  OnTime start call = start ≤ call.1

  within :
      (start time spent : ℕ) (o : Option Bucket)
      → start ≤ time
      → Balanced start time spent o
      → spent * policy.per_ms ≤ policy.burst * policy.per_ms + (time - start) * policy.requests
  unfolding Balanced
  within start time spent none l h = omega (arith, ap (λ x. x * policy.per_ms) h)
  within start time spent (some b) l h =
      omega (arith, h.0, split start b.updated_at time policy.requests h.1 h.2)

  reorder : (a b c : ℕ) → a + b + c ≡ b + (a + c)
  reorder a b c = omega arith

  run-within :
      (start time spent : ℕ) (calls : List Call) (buckets : Buckets)
      → start ≤ time
      → All (OnTime start) calls
      → Balanced start time spent (Map.get name buckets)
      → (tokens calls buckets + spent) * policy.per_ms
        ≤ policy.burst * policy.per_ms + (last_time time calls - start) * policy.requests
  unfolding tokens take
  run-within start time spent [] buckets l a h =
      omega (arith, within start time spent (Map.get name buckets) l h)
  run-within start time spent ((cost, now) ∷ calls) buckets l a h =
      let r = take_from cost policy now (Map.get name buckets) in
      let next =
        run-within start (max time now) (charged cost r.1 + spent) calls (Map.set name r.0 buckets)
          (omega (arith, l)) a.1
          (rw (Map.get-set_self name r.0 buckets)
            (take_from-Balanced start time spent cost now (Map.get name buckets) a.0 h)) in
      omega (
        arith,
        next,
        ap (λ x. x * policy.per_ms)
            (reorder (charged cost r.1) (tokens calls (Map.set name r.0 buckets)) spent),
      )

  -- However often a new bucket is asked, whatever the costs and the order of the times: the tokens
  -- that it has let through are at most the burst and what is refilled from `start`, which no call
  -- precedes, to the latest call. Both sides are in token-milliseconds.
  pub take_rate :
      (start : ℕ) (calls : List Call) (buckets : Buckets)
      → All (OnTime start) calls
      → Map.get name buckets ≡ none
      → tokens calls buckets * policy.per_ms
        ≤ policy.burst * policy.per_ms + (last_time start calls - start) * policy.requests
  unfolding Balanced
  take_rate start calls buckets a h =
      omega (arith, run-within start start 0 calls buckets (omega arith) a (rw h refl))
