-- ===== src/Budget/Limits.antt =====
-- src/budget/policy.ts: a policy that is accepted can be served.
use watukuy.Base.{
  ℕ, zero, suc, ◌<◌, String, string_eq, false, ◌≡◌, subst, arith, Bool-cases, inl, inr, ◌==◌,
}
use watukuy.Types.{Number, nat, neg, nan, infinity, neg_infinity, ok, chain-ok}
use watukuy.Duration.{parse_duration}
use Prim.Native.String.{◌++◌}
use watukuy.Budget.Policy.{
  BudgetConfig, ResolvedBudgetPolicy, at_least_one, positive, burst_of, fairness_of, max_wait_of,
  resolve_named, resolve_budget_policy,
}

at_least_one-pos : (m : String) (n : Number) (k : ℕ) → at_least_one m n ≡ ok k → 0 < k
unfolding at_least_one
at_least_one-pos m (nat zero) k h = absurd (cc h)
at_least_one-pos m (nat (suc n)) k h = ground (arith, h)
at_least_one-pos m (neg n) k h = absurd (cc h)
at_least_one-pos m nan k h = absurd (cc h)
at_least_one-pos m infinity k h = absurd (cc h)
at_least_one-pos m neg_infinity k h = absurd (cc h)

positive-pos : (m : String) (n k : ℕ) → positive m n ≡ ok k → 0 < k
unfolding positive
positive-pos m zero k h = absurd (cc h)
positive-pos m (suc n) k h = ground (arith, h)

abbrev pub IsServed : ResolvedBudgetPolicy → Type 0
IsServed r = (0 < r.policy.requests) × (0 < r.policy.per_ms) × (0 < r.policy.burst)

named_lem :
    (name : String) (cfg : BudgetConfig) (r : ResolvedBudgetPolicy)
    → resolve_named name cfg ≡ ok r
    → IsServed r
unfolding resolve_named
named_lem name cfg r h =
    let (requests, p, h1) =
      chain-ok
        (at_least_one ("budget '" ++ (name ++ "': requests must be a finite number >= 1"))
          cfg.requests)
        _ h in
    let (per, _, h2) = chain-ok (parse_duration cfg.per ("budget '" ++ (name ++ "' per"))) _ h1 in
    let (per_ms, q, h3) =
      chain-ok (positive ("budget '" ++ (name ++ "': per must be > 0")) per) _ h2 in
    let (burst, s, h4) =
      chain-ok
        (at_least_one ("budget '" ++ (name ++ "': burst must be a finite number >= 1"))
          (burst_of requests cfg.burst))
        _ h3 in
    let (fairness, _, h5) = chain-ok (fairness_of name cfg.fairness) _ h4 in
    let (max_wait_ms, _, h6) = chain-ok (max_wait_of name cfg.max_wait) _ h5 in
    subst IsServed (ok_inj h6)
      (at_least_one-pos _ _ requests p, positive-pos _ _ per_ms q, at_least_one-pos _ _ burst s)
  where
    ok_inj : {a b : ResolvedBudgetPolicy} → ok a ≡ ok b → a ≡ b
    ok_inj e = cc e

-- A configuration that is accepted has a name, and its rate, period and burst are positive.
pub resolve_budget_policy_lem :
    (name : String) (cfg : BudgetConfig) (r : ResolvedBudgetPolicy)
    → resolve_budget_policy name cfg ≡ ok r
    → ((name == "") ≡ false) × IsServed r
unfolding resolve_budget_policy
resolve_budget_policy_lem name cfg r h = elim (Bool-cases (name == "")) [
  | inl t ↦ absurd (cc (rw t at h))
  | inr t ↦ (t, named_lem name cfg r (rw t at h))
]
