-- ===== src/Budget/Examples.antt =====
-- The theorems on src/budget/ at concrete inputs.
use watukuy.Base.{
  All, In, ◌⊎◌, ℕ, String, ◌+◌, ◌-◌, ◌*◌, ◌<◌, ◌≤◌, none, some, List, [], ◌∷◌, ◌≡◌, refl, true,
  false, arith, string_eq,
}
use watukuy.Base.Map
use watukuy.Budget.{BudgetPolicy, Bucket, take, take_from, retry_in}
use watukuy.Types.{ok, Lane, live, replay}
use watukuy.Budget.Queue.{weighted, Waiter, Entry, round_robin, pick}
use watukuy.Budget.Fairness.{pick_lem, IsIssued}
use watukuy.Budget.Tickets.{NotAfter}
use watukuy.Types.{nat}
use watukuy.Duration.{written, parse_duration}
use watukuy.Base.Rounding.{round_div}
use watukuy.Budget.Policy.{BudgetConfig, ResolvedBudgetPolicy, resolve_budget_policy}
use watukuy.Budget.Rate.{Call, tokens, last_time, take_rate}
use watukuy.Budget.Retry.{is_granted, take_from_retry}

-- Ten requests a second.
abbrev policy : BudgetPolicy
policy = record { requests = 10; per_ms = 1000; burst = 10 }

abbrev calls : List Call
calls = (10, 0) ∷ (1, 0) ∷ (1, 100) ∷ (20, 5000) ∷ (3, 900) ∷ []

take_rate_example :
    tokens "erp" policy calls [] * 1000 ≤ 10 * 1000 + (last_time "erp" policy 0 calls - 0) * 10
unfolding Map.get
take_rate_example =
    take_rate "erp" policy 0 calls []
      (omega arith, (omega arith, (omega arith, (omega arith, (omega arith, tt))))) no_bucket
  where
    no_bucket : Map.get {K = String} {V = Bucket} "erp" [] ≡ none
    no_bucket = refl

taken_in_all : tokens "erp" policy calls [] ≡ 31
unfolding tokens take Map.get Map.set
taken_in_all = refl

abbrev drained : Bucket
drained = record { scaled = 0; updated_at = 0 }

take_from_retry_example :
    (is_granted policy 1 (take_from 1 policy (0 + 100) (some drained)).1 ≡ true)
    × ((d : ℕ)
        → d < 100
        → is_granted policy 1 (take_from 1 policy (0 + d) (some drained)).1 ≡ false)
unfolding take_from retry_in
take_from_retry_example =
    take_from_retry policy 1 0 (some drained) drained 100 (omega arith) (omega arith)
      (λ old e. ground (arith, e)) refl

abbrev waiter : ℕ → String → Lane → Waiter
waiter seq requester lane = record {
  seq = seq;
  requester = requester;
  weight = 1;
  lane = lane;
  cost = 1;
  enqueued_at = 0;
  deadline_at = none;
  settled = false;
}

-- `orders/` was served last; `items/` waits since later.
abbrev entry : Entry
entry = record {
  fairness = round_robin;
  queue = waiter 1 "replays/" replay ∷ waiter 2 "orders/" live ∷ waiter 3 "items/" live ∷ [];
  served =
      ("orders/", record { count = 4; weight = 1; last_seq = some 7 })
      ∷ ("items/", record { count = 3; weight = 1; last_seq = some 6 })
      ∷ [];
  grant_seq = 7;
}

pick_example :
    (((pick entry).1 ≡ none) × All (λ w. w.settled ≡ true) entry.queue)
    ⊎ ((best : Waiter) × ((pick entry).1 ≡ some best)
        × In best entry.queue
        × (best.settled ≡ false)
        × All (λ w. (w.settled ≡ true) ⊎ NotAfter entry.served best w) entry.queue)
pick_example = pick_lem entry refl

picked : (pick entry).1 ≡ some (waiter 3 "items/" live)
unfolding pick Map.get Map.set
picked = refl

issued : IsIssued entry
unfolding Map.get
issued j = ground (arith, string_eq.same_iff "orders/" j, string_eq.same_iff "items/" j)

abbrev erp : BudgetConfig
erp = record {
  requests = nat 100;
  per = written "1m";
  burst = none;
  fairness = some "weighted";
  max_wait = none;
}

abbrev erp_policy : ResolvedBudgetPolicy
erp_policy = record {
  policy = record { requests = 100; per_ms = 60_000; burst = 100 };
  fairness = weighted;
  max_wait_ms = none;
}

abbrev erp_name : String
erp_name = "erp"

erp_accepted : resolve_budget_policy erp_name erp ≡ ok erp_policy
unfolding resolve_budget_policy parse_duration round_div
erp_accepted = refl
