-- ===== src/Budget/Queue.antt =====
-- src/budget/manager.ts: who is served next, and what a grant records. Weights are whole numbers, and
-- ratios are compared exactly.
use watukuy.Base.{
  ℕ, suc, ◌+◌, ◌*◌, ◌/◌, String, string_eq, Bool, true, false, Option, none, some, List, [], ◌∷◌,
  nat_eqb, ltb, if◌then◌else◌,
}
use watukuy.Base.Map
use watukuy.Base.Map.{Map}
use watukuy.Types.{Lane, live, reconcile, backfill, replay, Ratio}
use Prim.Native.Nat.{compare, Ordering}

pub data Fairness : Type 0 where
  round_robin weighted : Fairness

-- Promises, signals and timers are left out; a waiter is known by its number.
pub record Waiter : Type 0 where
  pub seq : ℕ
  pub requester : String
  pub weight : ℕ
  pub lane : Lane
  pub cost : ℕ
  pub enqueued_at : ℕ
  pub deadline_at : Option ℕ
  pub settled : Bool

-- `lastSeq` is `none` for -1.
pub record ServedStats : Type 0 where
  pub count : ℕ
  pub weight : ℕ
  pub last_seq : Option ℕ

abbrev pub Served : Type 0
Served = Map String ServedStats

pub record Entry : Type 0 where
  pub fairness : Fairness
  pub queue : List Waiter
  pub served : Served
  pub grant_seq : ℕ

abbrev pub lane_rank : Lane → ℕ
lane_rank live = 0
lane_rank reconcile = 1
lane_rank backfill = 2
lane_rank replay = 3

-- The lowest `count / weight`; `none` is infinity.
unfoldable pub min_ratio : List ServedStats → Option Ratio
min_ratio [] = none
min_ratio (s ∷ more) = elim (min_ratio more) [
  | none ↦ some (record { num = s.count; den = s.weight })
  | some r ↦
      if ltb (r.num * s.weight) (s.count * r.den)
      then some r
      else some (record { num = s.count; den = s.weight })
]

abbrev pub first_count : Served → ℕ → ℕ
first_count served weight = elim (min_ratio (Map.values served)) [
  | none ↦ 0
  | some r ↦ r.num * weight / r.den
]

abbrev pub stats_of : Served → ℕ → Option ServedStats → ServedStats
stats_of served weight none = record {
  count = first_count served weight;
  weight = weight;
  last_seq = none;
}
stats_of served weight (some s) = record s { weight = weight }

unfoldable pub stats : Served → String → ℕ → Served × ServedStats
unfolding min_ratio
stats served requester weight =
    let s = stats_of served weight (Map.get requester served) in (Map.set requester s served, s)

abbrev pub last_ticket : Option ℕ → ℕ
last_ticket none = 0
last_ticket (some n) = suc n

-- The sign of a difference, or the next one where it is zero.
abbrev pub else_by : Ordering → Ordering → Ordering
else_by Ordering.eq next = next
else_by o next = o

abbrev pub by_last : ServedStats → ServedStats → Waiter → Waiter → Ordering
by_last sa sb a b =
    else_by (compare (last_ticket sa.last_seq) (last_ticket sb.last_seq)) (compare a.seq b.seq)

abbrev pub by_share : Fairness → ServedStats → ServedStats → Waiter → Waiter → Ordering
by_share round_robin sa sb a b = by_last sa sb a b
by_share weighted sa sb a b =
    else_by (compare (sa.count * b.weight) (sb.count * a.weight)) (by_last sa sb a b)

abbrev pub compare_stats : Fairness → Served → Waiter → Waiter → Served × Ordering
compare_stats fairness served a b =
    let x = stats served a.requester a.weight in
    let y = stats x.0 b.requester b.weight in (y.0, by_share fairness x.1 y.1 a b)

-- The lane decides; within a lane the statistics are looked up.
abbrev pub by_lane : Ordering → Fairness → Served → Waiter → Waiter → Served × Ordering
by_lane Ordering.lt fairness served a b = (served, Ordering.lt)
by_lane Ordering.gt fairness served a b = (served, Ordering.gt)
by_lane Ordering.eq fairness served a b = compare_stats fairness served a b

unfoldable pub compare_waiters : Fairness → Served → Waiter → Waiter → Served × Ordering
unfolding stats
compare_waiters fairness served a b =
    by_lane (compare (lane_rank a.lane) (lane_rank b.lane)) fairness served a b

abbrev pub is_lt : Ordering → Bool
is_lt Ordering.lt = true
is_lt _ = false

-- One round of the loop: the statistics as they stand, and the best waiter so far.
unfoldable pub pick_one : Fairness → Waiter → Served × Option Waiter → Served × Option Waiter
unfolding compare_waiters
pick_one fairness c (served, none) = if c.settled then (served, none) else (served, some c)
pick_one fairness c (served, some best) =
    let r = compare_waiters fairness served c best in
    if c.settled then (served, some best) else (r.0, if is_lt r.1 then some c else some best)

unfoldable pub pick_from : Fairness → List Waiter → Served × Option Waiter → Served × Option Waiter
unfolding pick_one
pick_from fairness [] s = s
pick_from fairness (c ∷ queue) s = pick_from fairness queue (pick_one fairness c s)

unfoldable pub pick : Entry → Served × Option Waiter
unfolding pick_from
pick entry = pick_from entry.fairness entry.queue (entry.served, none)

abbrev pub without : ℕ → List Waiter → List Waiter
without seq [] = []
without seq (w ∷ queue) = if nat_eqb w.seq seq then queue else w ∷ without seq queue

unfoldable pub grant : Entry → Waiter → Entry
unfolding stats
grant entry waiter =
    let x = stats entry.served waiter.requester waiter.weight in
    let last = entry.grant_seq + 1 in
    record entry {
      queue = without waiter.seq entry.queue;
      served =
          Map.set waiter.requester (record x.1 { count = x.1.count + 1; last_seq = some last }) x.0;
      grant_seq = last;
    }
