-- ===== src/Budget/Tickets.antt =====
-- src/budget/manager.ts: the order of the waiters by lane, ticket and sequence number, and that the
-- comparison decides it.
use watukuy.Base.{
  ℕ, ◌≤◌, ◌<◌, String, string_eq, Bool, true, false, Option, none, some, arith, ◌≡◌, refl, ◌∙◌, ap,
  inl, inr, ◌⊎◌,
}
use watukuy.Base.Map
use watukuy.Budget.Queue.{
  Waiter, ServedStats, Served, round_robin, lane_rank, stats, stats_of, last_ticket,
  compare_waiters, by_lane, is_lt, else_by,
}
use Prim.Native.Nat.{compare, Ordering}

-- When a requester was served last: 0 for never, and later grants have larger numbers.
abbrev pub ticket_of : Option ServedStats → ℕ
ticket_of none = 0
ticket_of (some s) = last_ticket s.last_seq

abbrev pub ticket : Served → Waiter → ℕ
ticket served w = ticket_of (Map.get w.requester served)

-- Three numbers in lexicographic order.
abbrev pub Lex : ℕ → ℕ → ℕ → ℕ → ℕ → ℕ → Type 0
Lex r s l m x y = (r < s) ⊎ ((r ≡ s) × ((l < m) ⊎ ((l ≡ m) × (x ≤ y))))

-- The order of the queue under `round-robin`: lane, then the requester served least recently, then age.
abbrev pub NotAfter : Served → Waiter → Waiter → Type 0
NotAfter served a b =
    Lex (lane_rank a.lane) (lane_rank b.lane) (ticket served a) (ticket served b) a.seq b.seq

-- Looking at a requester's statistics does not change when anybody was served.
abbrev pub SameTickets : Served → Served → Type 0
SameTickets s t =
    (requester : String) → ticket_of (Map.get requester t) ≡ ticket_of (Map.get requester s)

pub stats_of-ticket :
    (served : Served) (weight : ℕ) (o : Option ServedStats)
    → last_ticket (stats_of served weight o).last_seq ≡ ticket_of o
stats_of-ticket served weight none = refl
stats_of-ticket served weight (some s) = refl

pub stats-SameTickets :
    (served : Served) (requester : String) (weight : ℕ)
    → SameTickets served (stats served requester weight).0
unfolding stats
stats-SameTickets served requester weight j =
    rw (Map.get-set requester j (stats_of served weight (Map.get requester served)) served) (
      ground (
        arith,
        string_eq.same_iff requester j,
        stats_of-ticket served weight (Map.get requester served),
        ap (λ k. Map.get k served),
      ))

pub verdict : Ordering → Ordering → Ordering → Bool
verdict o p q = is_lt (else_by o (else_by p q))

pub verdict-Lex :
    (r s l m x y : ℕ)
    → ((verdict (compare r s) (compare l m) (compare x y) ≡ true) × Lex r s l m x y)
      ⊎ ((verdict (compare r s) (compare l m) (compare x y) ≡ false) × Lex s r m l y x)
unfolding verdict
verdict-Lex r s l m x y = ground arith

pub by_lane-verdict :
    (o : Ordering) (served : Served) (a b : Waiter)
    → is_lt (by_lane o round_robin served a b).1
      ≡ verdict o (compare (ticket served a) (ticket served b)) (compare a.seq b.seq)
unfolding verdict stats
by_lane-verdict Ordering.lt served a b = refl
by_lane-verdict Ordering.gt served a b = refl
by_lane-verdict Ordering.eq served a b = cc (
  stats_of-ticket served a.weight (Map.get a.requester served),
  stats_of-ticket (stats served a.requester a.weight).0 b.weight
      (Map.get b.requester (stats served a.requester a.weight).0),
  stats-SameTickets served a.requester a.weight b.requester,
)

pub by_lane-SameTickets :
    (o : Ordering) (served : Served) (a b : Waiter)
    → SameTickets served (by_lane o round_robin served a b).0
by_lane-SameTickets Ordering.lt served a b j = refl
by_lane-SameTickets Ordering.gt served a b j = refl
by_lane-SameTickets Ordering.eq served a b j =
    stats-SameTickets (stats served a.requester a.weight).0 b.requester b.weight j
    ∙ stats-SameTickets served a.requester a.weight j

pub Lex-trans : (r s t l m n x y z : ℕ) → Lex r s l m x y → Lex s t m n y z → Lex r t l n x z
Lex-trans r s t l m n x y z p q = ground (arith, p, q)

pub compare_lem :
    (start served : Served) (a b : Waiter)
    → SameTickets start served
    → ((is_lt (compare_waiters round_robin served a b).1 ≡ true) × NotAfter start a b)
      ⊎ ((is_lt (compare_waiters round_robin served a b).1 ≡ false) × NotAfter start b a)
unfolding compare_waiters
compare_lem start served a b same =
    elim (verdict-Lex (lane_rank a.lane) (lane_rank b.lane) (ticket start a) (ticket start b) a.seq
      b.seq) [ inl v ↦ inl (known ∙ v.0, v.1) | inr v ↦ inr (known ∙ v.0, v.1) ]
  where
    known :
        is_lt (by_lane (compare (lane_rank a.lane) (lane_rank b.lane)) round_robin served a b).1
        ≡ verdict
            (compare (lane_rank a.lane) (lane_rank b.lane))
            (compare (ticket start a) (ticket start b))
            (compare a.seq b.seq)
    known =
        by_lane-verdict (compare (lane_rank a.lane) (lane_rank b.lane)) served a b
        ∙ cc (same a.requester, same b.requester)
