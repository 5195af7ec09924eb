-- ===== src/DefinePoller/Sound.antt =====
-- src/core/define-poller.ts: what holds of a poller that is accepted.
use watukuy.Base.{
  ℕ, zero, suc, ◌≤◌, ◌<◌, Bool, true, false, ◌&&◌, String, Option, or_else, leb, ltb, ◌≡◌, refl,
  subst, arith, Bool-cases, inl, inr, is_some,
}
use watukuy.Types.{
  Number, nat, neg, nan, infinity, neg_infinity, Ratio, IsRatio, Backoff, ResolvedPoller, ok,
  chain-ok, ok_inj,
}
use watukuy.Duration.{Duration, written, parse_duration}
use Prim.Native.String.{◌++◌}
use watukuy.DefinePoller.{
  Quantity, exact, negative, not_a_number, PollerConfig, BackoffConfig, ScheduleConfig, ensure,
  count_of, factor_of, jitter_of, no_backoff, backoff_of, Times, Counts, times_of, counts_of,
  default_schedule, check_rest, assemble, resolve_poller, probe_of, optional_duration,
  is_snapshot_diff, validate_cursor, must, is_name, said, is_positive, is_nonnegative,
}

ensure-ok :
    (test : Bool) (message : String) (u : Unit {0}) → ensure test message ≡ ok u → test ≡ true
ensure-ok true message u h = refl
ensure-ok false message u h = absurd (cc h)

-- A quotient that was given has a positive denominator.
abbrev pub IsQuantity : Quantity → Type 0
IsQuantity (exact r) = IsRatio r
IsQuantity negative = Unit
IsQuantity not_a_number = Unit

abbrev pub IsBackoff : Backoff → Type 0
IsBackoff b = (b.base_ms ≤ b.max_ms) × (b.factor.den ≤ b.factor.num) × IsRatio b.factor

count_of-pos : (message : String) (n : Number) (k : ℕ) → count_of message n ≡ ok k → 1 ≤ k
unfolding count_of
count_of-pos message (nat zero) k h = absurd (cc h)
count_of-pos message (nat (suc n)) k h = ground (arith, h)
count_of-pos message (neg n) k h = absurd (cc h)
count_of-pos message nan k h = absurd (cc h)
count_of-pos message infinity k h = absurd (cc h)
count_of-pos message neg_infinity k h = absurd (cc h)

factor_of-ok :
    (label : String) (q : Quantity) (r : Ratio)
    → factor_of label q ≡ ok r
    → (q ≡ exact r) × (r.den ≤ r.num)
unfolding factor_of
factor_of-ok label (exact q) r h = elim (Bool-cases (leb q.den q.num)) [
  | inl t ↦ (cc (rw t at h), ground (arith, rw t at h))
  | inr f ↦ absurd (cc (rw f at h))
]
factor_of-ok label negative r h = absurd (cc h)
factor_of-ok label not_a_number r h = absurd (cc h)

jitter_of-ok :
    (name : String) (q : Quantity) (r : Ratio)
    → jitter_of name q ≡ ok r
    → (q ≡ exact r) × (r.num < r.den)
unfolding jitter_of
jitter_of-ok name (exact q) r h = elim (Bool-cases (ltb q.num q.den)) [
  | inl t ↦ (cc (rw t at h), ground (arith, rw t at h))
  | inr f ↦ absurd (cc (rw f at h))
]
jitter_of-ok name negative r h = absurd (cc h)
jitter_of-ok name not_a_number r h = absurd (cc h)

abbrev factor_given : Option BackoffConfig → Quantity
factor_given given = or_else (or_else given no_backoff).factor (exact (record { num = 2; den = 1 }))

backoff_of-IsBackoff :
    (given : Option BackoffConfig) (longest : Duration) (label : String) (b : Backoff)
    → backoff_of given longest label ≡ ok b
    → IsQuantity (factor_given given)
    → IsBackoff b
unfolding backoff_of
backoff_of-IsBackoff given longest label b h q =
    let (base_ms, _, h1) =
      chain-ok
        (parse_duration (or_else (or_else given no_backoff).base (written "1s"))
          (label ++ ".backoff.base"))
        _ h in
    let (max_ms, _, h2) =
      chain-ok
        (parse_duration (or_else (or_else given no_backoff).max longest) (label ++ ".backoff.max"))
        _ h1 in
    let (factor, f, h3) = chain-ok (factor_of label (factor_given given)) _ h2 in
    let (u, o, h4) =
      chain-ok (ensure (leb base_ms max_ms) (label ++ ".backoff.max must be >= base")) _ h3 in
    let (given_as, at_least) = factor_of-ok _ _ factor f in
    subst IsBackoff (ok_inj h4)
      (made base_ms max_ms factor (ensure-ok _ _ u o) at_least (subst IsQuantity given_as q))
  where
    made :
        (base_ms max_ms : ℕ) (factor : Ratio)
        → leb base_ms max_ms ≡ true
        → factor.den ≤ factor.num
        → IsRatio factor
        → IsBackoff (record { base_ms = base_ms; factor = factor; max_ms = max_ms })
    made base_ms max_ms factor o f q = (ground arith, f, q)

abbrev IsTimes : Times → Type 0
IsTimes t = (0 < t.min_ms) × (t.min_ms ≤ t.max_ms) × (t.jitter.num < t.jitter.den)

times_of-IsTimes :
    (name : String) (schedule : ScheduleConfig) (t : Times)
    → times_of name schedule ≡ ok t
    → IsTimes t
unfolding times_of
times_of-IsTimes name schedule t h =
    let (min_ms, _, h1) = chain-ok (parse_duration schedule.min (said name " schedule.min")) _ h in
    let (max_ms, _, h2) = chain-ok (parse_duration schedule.max (said name " schedule.max")) _ h1 in
    let (u, low, h3) =
      chain-ok (ensure (ltb 0 min_ms) (said name ": schedule.min must be > 0")) _ h2 in
    let (v, order, h4) =
      chain-ok (ensure (leb min_ms max_ms) (said name ": schedule.max must be >= schedule.min")) _
        h3 in
    let (jitter, j, h5) =
      chain-ok (jitter_of name (or_else schedule.jitter (exact (record { num = 1; den = 10 })))) _
        h4 in
    subst IsTimes (ok_inj h5) (
      made min_ms max_ms jitter (ensure-ok _ _ u low) (ensure-ok _ _ v order)
        (jitter_of-ok name (or_else schedule.jitter (exact (record { num = 1; den = 10 }))) jitter
          j).1)
  where
    made :
        (min_ms max_ms : ℕ) (jitter : Ratio)
        → ltb 0 min_ms ≡ true
        → leb min_ms max_ms ≡ true
        → jitter.num < jitter.den
        → IsTimes (record { min_ms = min_ms; max_ms = max_ms; jitter = jitter })
    made min_ms max_ms jitter low order j = (ground arith, ground arith, j)

abbrev AreCounts : Counts → Type 0
AreCounts c =
    (1 ≤ c.concurrency)
    × (1 ≤ c.attempts)
    × (1 ≤ c.schema_version)
    × (1 ≤ c.max_pages)
    × (1 ≤ c.failures)

counts_of-AreCounts : (cfg : PollerConfig) (c : Counts) → counts_of cfg ≡ ok c → AreCounts c
unfolding counts_of
counts_of-AreCounts cfg c h =
    let (concurrency, p1, h1) =
      chain-ok
        (count_of (must cfg "delivery.concurrency") (or_else cfg.delivery.concurrency (nat 1))) _
        h in
    let (attempts, p2, h2) =
      chain-ok
        (count_of (must cfg "delivery.retry.attempts") (or_else cfg.delivery.attempts (nat 5))) _
        h1 in
    let (schema_version, p3, h3) =
      chain-ok (count_of (must cfg "schemaVersion") (or_else cfg.schema_version (nat 1))) _ h2 in
    let (max_pages, p4, h4) =
      chain-ok (count_of (must cfg "maxPagesPerCycle") (or_else cfg.max_pages_per_cycle (nat 50))) _
        h3 in
    let (failures, p5, h5) =
      chain-ok (count_of (must cfg "circuit.failures") (or_else cfg.circuit_failures (nat 5))) _
        h4 in
    subst AreCounts (ok_inj h5) (
      count_of-pos _ _ concurrency p1,
      count_of-pos _ _ attempts p2,
      count_of-pos _ _ schema_version p3,
      count_of-pos _ _ max_pages p4,
      count_of-pos _ _ failures p5,
    )

-- What the theorems on the scheduler, the runner and the dispatcher ask of a poller.
pub record IsSound (r : ResolvedPoller) : Type 0 where
  pub interval : (0 < r.schedule.min_ms) × (r.schedule.min_ms ≤ r.schedule.max_ms)
  pub jitter : r.schedule.jitter.num < r.schedule.jitter.den
  pub waits : IsBackoff r.schedule.backoff × IsBackoff r.delivery.retry_backoff
  pub counts :
      (1 ≤ r.delivery.concurrency)
      × (1 ≤ r.delivery.retry_attempts)
      × (1 ≤ r.schema_version)
      × (1 ≤ r.max_pages_per_cycle)
      × (1 ≤ r.circuit.failures)

assemble-IsSound :
    (cfg : PollerConfig) (schedule : ScheduleConfig) (t : Times) (c : Counts) (r : ResolvedPoller)
    → assemble cfg schedule t c ≡ ok r
    → IsQuantity (factor_given schedule.backoff)
    → IsQuantity (factor_given cfg.delivery.backoff)
    → IsTimes t
    → AreCounts c
    → IsSound r
unfolding assemble
assemble-IsSound cfg schedule t c r h q s times counts =
    let (schedule_backoff, b1, h1) =
      chain-ok (backoff_of schedule.backoff (written "10m") (said cfg.name " schedule")) _ h in
    let (refresh, _, h2) =
      chain-ok
        (parse_duration (or_else cfg.partitions_refresh (written "5m"))
          (said cfg.name " partitionsRefresh"))
        _ h1 in
    let (retry_backoff, b2, h3) =
      chain-ok (backoff_of cfg.delivery.backoff (written "2m") (said cfg.name " delivery.retry")) _
        h2 in
    let (every, _, h4) =
      chain-ok (optional_duration cfg.reconcile_every (said cfg.name " reconcile.every")) _ h3 in
    let (probe, _, h5) = chain-ok (probe_of cfg.name cfg.probe_every t.max_ms) _ h4 in
    let (retention, _, h6) =
      chain-ok (optional_duration cfg.log_retention (said cfg.name " log.retention")) _ h5 in
    subst IsSound (ok_inj h6) (record {
      interval = (times.0, times.1);
      jitter = times.2;
      waits = (
        backoff_of-IsBackoff schedule.backoff (written "10m") (said cfg.name " schedule")
            schedule_backoff b1 q,
        backoff_of-IsBackoff cfg.delivery.backoff (written "2m") (said cfg.name " delivery.retry")
            retry_backoff b2 s,
      );
      counts = counts;
    })

-- A configuration that is accepted gives a poller whose interval is positive and in order, whose
-- jitter is below 1, whose factors are at least 1 with waits in order, and whose counts are at least
-- 1, and has no reconcile lane beside a full scan. The factors are quotients.
pub resolve_poller-IsSound :
    (cfg : PollerConfig) (r : ResolvedPoller)
    → resolve_poller cfg ≡ ok r
    → IsQuantity (factor_given (or_else cfg.schedule default_schedule).backoff)
    → IsQuantity (factor_given cfg.delivery.backoff)
    → IsSound r × ((is_some cfg.reconcile_every && is_snapshot_diff cfg.cursor) ≡ false)
unfolding resolve_poller check_rest
resolve_poller-IsSound cfg r h q s =
    let (u, _, h1) = chain-ok (ensure (is_name cfg.name) _) _ h in
    let (v, _, h2) = chain-ok (validate_cursor cfg.cursor cfg.name) _ h1 in
    let (t, p, h3) = chain-ok (times_of cfg.name (or_else cfg.schedule default_schedule)) _ h2 in
    let (c, n, h4) = chain-ok (counts_of cfg) _ h3 in
    let (w, rest, h5) = chain-ok (check_rest cfg) _ h4 in
    let (x, _, k1) =
      chain-ok
        (ensure (is_positive (or_else cfg.budget_weight (exact (record { num = 1; den = 1 }))))
          (said cfg.name ": budgetWeight must be > 0"))
        _ rest in
    let (y, _, k2) =
      chain-ok
        (ensure (is_nonnegative (or_else cfg.budget_cost (exact (record { num = 1; den = 1 }))))
          (said cfg.name ": budgetCost must be >= 0"))
        _ k1 in
    (
      assemble-IsSound cfg (or_else cfg.schedule default_schedule) t c r h5 q s
          (times_of-IsTimes cfg.name (or_else cfg.schedule default_schedule) t p)
          (counts_of-AreCounts cfg c n),
      ground (arith, ensure-ok _ _ w k2),
    )
