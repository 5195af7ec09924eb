-- ===== src/Budget/Fairness.antt =====
-- src/budget/manager.ts: the waiter that is served next.
use watukuy.Base.{
  ℕ, suc, ◌+◌, ◌≤◌, String, string_eq, ◌==◌, Bool, true, false, Option, none, some, List, [], ◌∷◌,
  All, In, arith, ◌≡◌, refl, sym, ◌∙◌, ap, subst, ◌≢◌, Bool-cases, Option-cases, inl, inr, ◌⊎◌,
  if◌then◌else◌,
}
use watukuy.Base.Map
use watukuy.Budget.Queue.{
  Waiter, Served, Entry, Fairness, round_robin, lane_rank, stats, compare_waiters, is_lt, pick_one,
  pick_from, pick, grant,
}
use Prim.Native.Nat.{compare, Ordering}
use watukuy.Budget.Tickets.{
  ticket_of, ticket, Lex, NotAfter, SameTickets, stats-SameTickets, by_lane-SameTickets, Lex-trans,
  compare_lem,
}

-- A waiter that is settled, or that the best one so far is not after.
Covers : Served → Option Waiter → Waiter → Type 0
Covers start none w = w.settled ≡ true
Covers start (some best) w = (w.settled ≡ true) ⊎ NotAfter start best w

record Round (start : Served) (c : Waiter) (before after : Served × Option Waiter) : Type 0 where
  same : SameTickets start after.0
  covers : Covers start after.1 c
  keeps : (w : Waiter) → Covers start before.1 w → Covers start after.1 w

Lex-refl : (r l x : ℕ) → Lex r r l l x x
Lex-refl r l x = ground arith

NotAfter-trans :
    (start : Served) (a b w : Waiter)
    → NotAfter start a b
    → Covers start (some b) w
    → Covers start (some a) w
unfolding Covers
NotAfter-trans start a b w p (inl q) = inl q
NotAfter-trans start a b w p (inr q) = inr (
    Lex-trans (lane_rank a.lane) (lane_rank b.lane) (lane_rank w.lane) (ticket start a)
      (ticket start b) (ticket start w) a.seq b.seq w.seq p q)

round :
    (start : Served) (c : Waiter) (s : Served × Option Waiter)
    → SameTickets start s.0
    → Round start c s (pick_one round_robin c s)
unfolding pick_one Covers compare_waiters
round start c (served, none) h = elim (Bool-cases c.settled) [
  | inl t ↦ skip t (record { same = h; covers = t; keeps = λ w k. k })
  | inr t ↦ skip t (record {
    same = h;
    covers = inr (Lex-refl (lane_rank c.lane) (ticket start c) c.seq);
    keeps = λ w k. inl k;
  })
]
  where
    skip :
        {b : Bool}
        → c.settled ≡ b
        → Round start c (served, none) (if b then (served, none) else (served, some c))
        → Round start c (served, none) (pick_one round_robin c (served, none))
    skip t =
        subst (λ b. Round start c (served, none) (if b then (served, none) else (served, some c)))
          (sym t)
round start c (served, some best) h = elim (Bool-cases c.settled) [
  | inl t ↦ skip t (record { same = h; covers = inl t; keeps = λ w k. k })
  | inr t ↦ skip t (elim (compare_lem start served c best h) [
    | inl v ↦ choose (v.0) (record {
      same = later;
      covers = inr (Lex-refl (lane_rank c.lane) (ticket start c) c.seq);
      keeps = λ w k. NotAfter-trans start c best w v.1 k;
    })
    | inr v ↦ choose (v.0) (record { same = later; covers = inr v.1; keeps = λ w k. k })
  ])
]
  where
    compared : Served × Ordering
    compared = compare_waiters round_robin served c best

    later : SameTickets start compared.0
    later j =
        by_lane-SameTickets (compare (lane_rank c.lane) (lane_rank best.lane)) served c best j ∙ h j

    skip :
        {b : Bool}
        → c.settled ≡ b
        → Round start c
            (served, some best)
            (if b
              then (served, some best)
              else (compared.0, if is_lt compared.1 then some c else some best))
        → Round start c (served, some best) (pick_one round_robin c (served, some best))
    skip t =
        subst
          (λ b.
            Round start c (served, some best)
              (if b
                then (served, some best)
                else (compared.0, if is_lt compared.1 then some c else some best)))
          (sym t)

    choose :
        {b : Bool}
        → is_lt compared.1 ≡ b
        → Round start c (served, some best) (compared.0, if b then some c else some best)
        → Round start c
            (served, some best)
            (compared.0, if is_lt compared.1 then some c else some best)
    choose t =
        subst (λ b. Round start c (served, some best) (compared.0, if b then some c else some best))
          (sym t)

pick_from-Covers :
    (start : Served) (queue : List Waiter) (s : Served × Option Waiter)
    → SameTickets start s.0
    → All (Covers start (pick_from round_robin queue s).1) queue
      × ((w : Waiter) → Covers start s.1 w → Covers start (pick_from round_robin queue s).1 w)
unfolding pick_from
pick_from-Covers start [] s h = (tt, λ w k. k)
pick_from-Covers start (c ∷ queue) s h =
    let r = round start c s h in
    let (all, keeps) = pick_from-Covers start queue (pick_one round_robin c s) r.same in
    ((keeps c r.covers, all), λ w k. keeps w (r.keeps w k))

-- What is picked waits in the queue.
chosen_one :
    (fairness : Fairness) (c w : Waiter) (s : Served × Option Waiter)
    → (pick_one fairness c s).1 ≡ some w
    → ((c ≡ w) × (c.settled ≡ false)) ⊎ (s.1 ≡ some w)
unfolding pick_one
chosen_one fairness c w (served, none) h = ground (arith, h)
chosen_one fairness c w (served, some best) h = ground (arith, h)

pick_from-chosen :
    (fairness : Fairness) (queue : List Waiter) (s : Served × Option Waiter) (w : Waiter)
    → (pick_from fairness queue s).1 ≡ some w
    → (In w queue × (w.settled ≡ false)) ⊎ (s.1 ≡ some w)
unfolding pick_from
pick_from-chosen fairness [] s w h = inr h
pick_from-chosen fairness (c ∷ queue) s w h =
    elim (pick_from-chosen fairness queue (pick_one fairness c s) w h) [
      | inl m ↦ inl (inr m.0, m.1)
      | inr e ↦ elim (chosen_one fairness c w s e) [
        | inl q ↦ inl (inl q.0, ap (λ (x : Waiter). x.settled) (sym q.0) ∙ q.1)
        | inr q ↦ inr q
      ]
    ]

-- Under `round-robin` the loop picks a waiter of the queue that is not settled, and none of the others
-- comes before it: its lane has the highest priority, within the lane its requester was served least
-- recently, and among the requests of such requesters it is the oldest. It picks nobody only where
-- every waiter is settled.
pub pick_lem :
    (entry : Entry)
    → entry.fairness ≡ round_robin
    → (((pick entry).1 ≡ none) × All (λ w. w.settled ≡ true) entry.queue)
      ⊎ ((best : Waiter) × ((pick entry).1 ≡ some best)
          × In best entry.queue
          × (best.settled ≡ false)
          × All (λ w. (w.settled ≡ true) ⊎ NotAfter entry.served best w) entry.queue)
unfolding pick Covers
pick_lem entry h =
    elim (Option-cases (pick_from entry.fairness entry.queue (entry.served, none)).1) [
      | inl e ↦ inl (e, all none e)
      | inr p ↦ inr (p.0, p.1, (waits p.0 p.1).0, (waits p.0 p.1).1, all (some p.0) p.1)
    ]
  where
    all :
        (o : Option Waiter)
        → (pick_from entry.fairness entry.queue (entry.served, none)).1 ≡ o
        → All (Covers entry.served o) entry.queue
    all o e =
        subst (λ b. All (Covers entry.served b) entry.queue)
          (ap (λ f. (pick_from f entry.queue (entry.served, none)).1) (sym h) ∙ e)
          (pick_from-Covers entry.served entry.queue (entry.served, none) (λ j. refl)).0

    waits :
        (w : Waiter)
        → (pick_from entry.fairness entry.queue (entry.served, none)).1 ≡ some w
        → In w entry.queue × (w.settled ≡ false)
    waits w e = elim (pick_from-chosen entry.fairness entry.queue (entry.served, none) w e) [
      | inl m ↦ m
      | inr q ↦ absurd (cc q)
    ]

-- No requester was served later than the last grant.
abbrev pub IsIssued : Entry → Type 0
IsIssued entry =
    (requester : String) → ticket_of (Map.get requester entry.served) ≤ suc entry.grant_seq

ticket-grant :
    (entry : Entry) (w : Waiter) (j : String)
    → ticket_of (Map.get j (grant entry w).served)
      ≡ (if w.requester == j then suc (entry.grant_seq + 1) else ticket_of (Map.get j entry.served))
unfolding grant
ticket-grant entry w j =
    let x = stats entry.served w.requester w.weight in
    rw
      (Map.get-set w.requester j
        (record x.1 { count = x.1.count + 1; last_seq = some (entry.grant_seq + 1) }) x.0)
      (ground (arith, stats-SameTickets entry.served w.requester w.weight j))

-- A grant sends its requester to the back of its lane: any request of another requester in that lane,
-- or in one of higher priority, then comes before all of its own, however long those have waited.
pub grant_lem :
    (entry : Entry) (w : Waiter)
    → IsIssued entry
    → IsIssued (grant entry w)
      × ((u v : Waiter)
          → u.requester ≢ w.requester
          → v.requester ≡ w.requester
          → lane_rank u.lane ≤ lane_rank v.lane
          → NotAfter (grant entry w).served u v × (NotAfter (grant entry w).served v u → ⊥))
unfolding grant
grant_lem entry w h = (
  issued,
  λ u v n e l. (
    ground (arith, other u n, own v e, h u.requester, l),
    λ p. ground (arith, other u n, own v e, h u.requester, l, p),
  ),
)
  where
    own :
        (v : Waiter)
        → v.requester ≡ w.requester
        → ticket (grant entry w).served v ≡ suc (entry.grant_seq + 1)
    own v e =
        ticket-grant entry w v.requester
        ∙ ground (arith, e, string_eq.same_iff w.requester v.requester)

    other :
        (u : Waiter)
        → u.requester ≢ w.requester
        → ticket (grant entry w).served u ≡ ticket entry.served u
    other u n =
        ticket-grant entry w u.requester
        ∙ ground (arith, n, string_eq.same_iff w.requester u.requester)

    grown : (grant entry w).grant_seq ≡ entry.grant_seq + 1
    grown = refl

    issued : IsIssued (grant entry w)
    issued j = ground (arith, ticket-grant entry w j, h j, grown)
