-- ===== src/Budget/Policy.antt =====
-- src/budget/policy.ts: a budget's configuration, checked and in milliseconds. Numbers are whole.
use watukuy.Base.{ℕ, zero, suc, String, string_eq, Option, none, some, if◌then◌else◌, ◌==◌}
use watukuy.Types.{Number, nat, Result, ok, err, config, ◌>>=◌}
use watukuy.Duration.{Duration, parse_duration}
use watukuy.Diff.Canonicalize.{json_string}
use watukuy.Budget.{BudgetPolicy}
use watukuy.Budget.Queue.{Fairness, round_robin, weighted}
use Prim.Native.String.{◌++◌}

pub record BudgetConfig : Type 0 where
  pub requests : Number
  pub per : Duration
  pub burst : Option Number
  pub fairness : Option String
  pub max_wait : Option Duration

pub record ResolvedBudgetPolicy : Type 0 where
  pub policy : BudgetPolicy
  pub fairness : Fairness
  pub max_wait_ms : Option ℕ

-- A finite number that is at least 1, or the error.
unfoldable pub at_least_one : String → Number → Result ℕ
at_least_one message (nat (suc n)) = ok (suc n)
at_least_one message n = err (config message)

unfoldable pub positive : String → ℕ → Result ℕ
positive message zero = err (config message)
positive message (suc n) = ok (suc n)

unfoldable pub fairness_of : String → Option String → Result Fairness
fairness_of name none = ok round_robin
fairness_of name (some s) =
    if s == "round-robin"
    then ok round_robin
    else if s == "weighted"
    then ok weighted
    else err (
        config (
          "budget '"
          ++ (name ++ ("': fairness must be 'round-robin' or 'weighted', got " ++ json_string s))))

unfoldable pub max_wait_of : String → Option Duration → Result (Option ℕ)
max_wait_of name none = ok none
max_wait_of name (some d) =
    parse_duration d ("budget '" ++ (name ++ "' maxWait")) >>= λ ms. ok (some ms)

abbrev pub burst_of : ℕ → Option Number → Number
burst_of requests none = nat requests
burst_of requests (some n) = n

abbrev pub resolved : ℕ → ℕ → ℕ → Fairness → Option ℕ → ResolvedBudgetPolicy
resolved requests per_ms burst fairness max_wait_ms = record {
  policy = record { requests = requests; per_ms = per_ms; burst = burst };
  fairness = fairness;
  max_wait_ms = max_wait_ms;
}

-- The checks on the configuration, in their order.
unfoldable pub resolve_named : String → BudgetConfig → Result ResolvedBudgetPolicy
unfolding at_least_one positive fairness_of max_wait_of
resolve_named name cfg =
    at_least_one ("budget '" ++ (name ++ "': requests must be a finite number >= 1")) cfg.requests
    >>= λ requests. parse_duration cfg.per ("budget '" ++ (name ++ "' per")) >>= λ per.
        positive ("budget '" ++ (name ++ "': per must be > 0")) per >>= λ per_ms.
        at_least_one ("budget '" ++ (name ++ "': burst must be a finite number >= 1"))
          (burst_of requests cfg.burst)
        >>= λ burst. fairness_of name cfg.fairness >>= λ fairness.
            max_wait_of name cfg.max_wait >>= λ max_wait_ms.
            ok (resolved requests per_ms burst fairness max_wait_ms)

unfoldable pub resolve_budget_policy : String → BudgetConfig → Result ResolvedBudgetPolicy
unfolding resolve_named
resolve_budget_policy name cfg =
    if name == ""
    then err (config "budget name must be a non-empty string")
    else resolve_named name cfg
