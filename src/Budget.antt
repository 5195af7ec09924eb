-- ===== src/Budget.antt =====
-- src/budget/memory-store.ts: token buckets by name. Requests, period, burst, cost and time are whole
-- numbers, as the source means them; contents are scaled by the period, so that they are whole too.
pub mod Queue
pub mod Policy
pub mod Tickets
mod Fairness
mod Limits
mod Rate
mod Retry
mod Examples
use watukuy.Base.{
  ℕ, ◌+◌, ◌-◌, ◌*◌, ◌/◌, String, string_eq, Option, none, some, List, [], ◌∷◌, nat_eqb, ltb, leb,
  min, max, if◌then◌else◌,
}
use watukuy.Base.Rounding.{ceil_div}
use watukuy.Base.Map
use watukuy.Base.Map.{Map}
use watukuy.Types.{Ratio}

pub record BudgetPolicy : Type 0 where
  pub requests : ℕ
  pub per_ms : ℕ
  pub burst : ℕ

pub record Bucket : Type 0 where
  pub scaled : ℕ
  pub updated_at : ℕ

-- `remaining` is a number of tokens, in fractions of the period.
pub data TakeResult : Type 0 where
  granted : Ratio → TakeResult
  denied : ℕ → TakeResult

abbrev pub Buckets : Type 0
Buckets = Map String Bucket

-- The content of a bucket at `now`; a name that is seen for the first time has a full one.
unfoldable pub refill : BudgetPolicy → ℕ → ℕ → Option Bucket → Bucket
refill policy now capacity_tokens none = record {
  scaled = min (capacity_tokens * policy.per_ms) (policy.burst * policy.per_ms);
  updated_at = now;
}
refill policy now capacity_tokens (some b) =
    let cap = capacity_tokens * policy.per_ms in
    if ltb b.updated_at now
    then record {
      scaled = min cap (b.scaled + (now - b.updated_at) * policy.requests);
      updated_at = now;
    }
    else if ltb cap b.scaled
    then record b { scaled = cap }
    else b

-- `Math.max(1, Math.ceil(deficit / requests - 1e-9))`, with the fraction written over one denominator.
unfoldable pub retry_in : ℕ → ℕ → ℕ
unfolding ceil_div
retry_in deficit requests =
    max 1 (ceil_div (deficit * 1_000_000_000 - requests) (requests * 1_000_000_000))

-- What a take does to a filled bucket. On whole numbers `scaled + 1e-9 >= need` is `scaled >= need`.
unfoldable pub draw : ℕ → BudgetPolicy → Bucket → Bucket × TakeResult
unfolding retry_in
draw cost policy bucket =
    let need = cost * policy.per_ms in
    if leb need bucket.scaled
    then (
      record bucket { scaled = bucket.scaled - need },
      granted (record { num = bucket.scaled - need; den = policy.per_ms }),
    )
    else (bucket, denied (retry_in (need - bucket.scaled) policy.requests))

unfoldable pub take_from : ℕ → BudgetPolicy → ℕ → Option Bucket → Bucket × TakeResult
unfolding refill draw
take_from cost policy now old =
    if nat_eqb cost 0
    then (let bucket = refill policy now policy.burst old in
        (bucket, granted (record { num = bucket.scaled; den = policy.per_ms })))
    else draw cost policy (refill policy now (max policy.burst cost) old)

unfoldable pub take : String → ℕ → BudgetPolicy → ℕ → Buckets → Buckets × TakeResult
unfolding take_from
take name cost policy now buckets =
    let r = take_from cost policy now (Map.get name buckets) in (Map.set name r.0 buckets, r.1)

unfoldable pub peek : String → BudgetPolicy → ℕ → Buckets → Buckets × Ratio
peek name policy now buckets =
    let bucket = refill policy now policy.burst (Map.get name buckets) in
    (Map.set name bucket buckets, record { num = bucket.scaled; den = policy.per_ms })

abbrev pub clear : Buckets → Buckets
clear buckets = []
