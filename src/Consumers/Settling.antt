-- ===== src/Consumers/Settling.antt =====
-- src/core/consumers.ts: what settling an event in flight, handing out and closing keep.
use watukuy.Base.{
  Bool, true, false, Option, none, some, List, [], ◌∷◌, ◌++◌, if◌then◌else◌, ◌≡◌, refl, sym, ap,
  ◌∙◌, subst, All, All-append, All-map, In, inl, inr, ◌⊎◌,
}
use watukuy.Consumers.{
  Pending, Outcome, rejected, SubscribeConsumer, pump, settle_pending, settle_inflight, reject_all,
  drop_queue, close,
}

abbrev pub in_flight : Option Pending → List Pending
in_flight none = []
in_flight (some p) = p ∷ []

abbrev pub firsts : List (Pending × Outcome) → List Pending
firsts [] = []
firsts (e ∷ es) = e.0 ∷ firsts es

-- Every delivery so far, in the order that the subscription keeps them.
abbrev pub kept : SubscribeConsumer → List Pending
kept s = firsts s.settled ++ (in_flight s.inflight ++ s.queue)

pub firsts-append : (xs ys : List (Pending × Outcome)) → firsts (xs ++ ys) ≡ firsts xs ++ firsts ys
firsts-append [] ys = refl
firsts-append (x ∷ xs) ys = ap (◌∷◌ x.0) (firsts-append xs ys)

pub firsts-reject_all : (ps : List Pending) → firsts (reject_all ps) ≡ ps
firsts-reject_all [] = refl
firsts-reject_all (p ∷ ps) = ap (◌∷◌ p) (firsts-reject_all ps)

pub append_nil : (xs : List Pending) → xs ++ [] ≡ xs
append_nil [] = refl
append_nil (x ∷ xs) = ap (◌∷◌ x) (append_nil xs)

pub append_assoc : (xs ys zs : List Pending) → (xs ++ ys) ++ zs ≡ xs ++ (ys ++ zs)
append_assoc [] ys zs = refl
append_assoc (x ∷ xs) ys zs = ap (◌∷◌ x) (append_assoc xs ys zs)

-- An acknowledged delivery was handed out; so was the one in flight. A closed subscription holds
-- nothing, and one that is asked for an event and has none in flight has none waiting.
abbrev pub WasHanded : List Pending → Pending × Outcome → Type 0
WasHanded handed e = (e.1 ≡ rejected) ⊎ In e.0 handed

pub record IsConsumer (s : SubscribeConsumer) : Type 0 where
  pub acks : All (WasHanded s.handed) s.settled
  pub flies : All (λ p. In p s.handed) (in_flight s.inflight)
  pub shut : s.closed ≡ true → (s.inflight ≡ none) × (s.queue ≡ []) × (s.puller ≡ false)
  pub served : s.puller ≡ true → s.inflight ≡ none → s.queue ≡ []

pub In-append_left : (p : Pending) (xs ys : List Pending) → In p xs → In p (xs ++ ys)
In-append_left p [] ys m = absurd m
In-append_left p (x ∷ xs) ys (inl e) = inl e
In-append_left p (x ∷ xs) ys (inr m) = inr (In-append_left p xs ys m)

pub In-last : (p : Pending) (xs : List Pending) → In p (xs ++ (p ∷ []))
In-last p [] = inl refl
In-last p (x ∷ xs) = inr (In-last p xs)

pub still_handed :
    (handed more : List Pending) (e : Pending × Outcome)
    → WasHanded handed e
    → WasHanded (handed ++ more) e
still_handed handed more e (inl r) = inl r
still_handed handed more e (inr m) = inr (In-append_left e.0 handed more m)

-- What `pump` needs and gives.
pub record IsReady (s : SubscribeConsumer) : Type 0 where
  pub acks : All (WasHanded s.handed) s.settled
  pub flies : All (λ p. In p s.handed) (in_flight s.inflight)
  pub shut : s.closed ≡ true → (s.inflight ≡ none) × (s.queue ≡ []) × (s.puller ≡ false)

unfoldable pub with_fields :
    SubscribeConsumer → Bool → Option Pending → List Pending → SubscribeConsumer
with_fields s puller inflight queue = record s {
  puller = puller;
  inflight = inflight;
  queue = queue;
}

pub pump_lem :
    (s : SubscribeConsumer) (puller : Bool) (inflight : Option Pending) (queue : List Pending)
    → let t = with_fields s puller inflight queue in
      IsReady t → IsConsumer (pump t) × (kept (pump t) ≡ kept t) × ((pump t).closed ≡ s.closed)
unfolding pump with_fields
pump_lem s false inflight queue h = (
  record { acks = h.acks; flies = h.flies; shut = h.shut; served = λ p. absurd (cc p) },
  refl,
  refl,
)
pump_lem s true (some p) queue h = (
  record { acks = h.acks; flies = h.flies; shut = h.shut; served = λ q n. absurd (cc n) },
  refl,
  refl,
)
pump_lem s true none [] h =
    (record { acks = h.acks; flies = h.flies; shut = h.shut; served = λ q n. refl }, refl, refl)
pump_lem s true none (p ∷ queue) h = (
  record {
    acks = All-map (still_handed s.handed (p ∷ [])) s.settled h.acks;
    flies = (In-last p s.handed, tt);
    shut = λ c. absurd (cc (h.shut c).1);
    served = λ q. absurd (cc q);
  },
  refl,
  refl,
)

-- What is left after the event in flight is settled.
pub record IsSettled (s u : SubscribeConsumer) : Type 0 where
  pub same : kept u ≡ kept s
  pub empty : u.inflight ≡ none
  pub acks : All (WasHanded u.handed) u.settled
  pub closed : u.closed ≡ s.closed
  pub queue : u.queue ≡ s.queue
  pub puller : u.puller ≡ s.puller

pub settle_lem :
    (o : Outcome) (s : SubscribeConsumer) (inflight : Option Pending)
    → let t = with_fields s s.puller inflight s.queue in
      (o ≡ rejected) ⊎ All (λ p. In p s.handed) (in_flight inflight)
      → All (WasHanded s.handed) s.settled
      → IsSettled t (settle_pending o inflight t)
unfolding with_fields
settle_lem o s none k a = record {
  same = refl;
  empty = refl;
  acks = a;
  closed = refl;
  queue = refl;
  puller = refl;
}
settle_lem o s (some p) k a = record {
  same =
      ap (λ x. x ++ s.queue) (firsts-append s.settled ((p, o) ∷ []))
      ∙ append_assoc (firsts s.settled) (p ∷ []) s.queue;
  empty = refl;
  acks = All-append (WasHanded s.handed) s.settled ((p, o) ∷ []) a (last k, tt);
  closed = refl;
  queue = refl;
  puller = refl;
}
  where
    last : (o ≡ rejected) ⊎ (In p s.handed × Unit {0}) → WasHanded s.handed (p, o)
    last (inl e) = inl e
    last (inr m) = inr m.0

pub settle_inflight_lem :
    (o : Outcome) (s : SubscribeConsumer)
    → (o ≡ rejected) ⊎ All (λ p. In p s.handed) (in_flight s.inflight)
    → All (WasHanded s.handed) s.settled
    → IsSettled s (settle_inflight o s)
unfolding settle_inflight with_fields
settle_inflight_lem o s k a = settle_lem o s s.inflight k a

pub All-reject_all : (handed ps : List Pending) → All (WasHanded handed) (reject_all ps)
All-reject_all handed [] = tt
All-reject_all handed (p ∷ ps) = (inl refl, All-reject_all handed ps)

-- A state whose event in flight is settled.
pub settled_state :
    (t : SubscribeConsumer) → t.inflight ≡ none → t ≡ with_fields t t.puller none t.queue
unfolding with_fields
settled_state t e = ap (λ i. with_fields t t.puller i t.queue) e

pub drop_queue_lem :
    (t : SubscribeConsumer)
    → t.inflight ≡ none
    → All (WasHanded t.handed) t.settled
    → IsConsumer (drop_queue t) × (kept (drop_queue t) ≡ kept t)
unfolding with_fields
drop_queue_lem t e a =
    subst (λ (x : SubscribeConsumer). IsConsumer (drop_queue x) × (kept (drop_queue x) ≡ kept x))
      (sym (settled_state t e))
      (
        record {
          acks =
              All-append (WasHanded t.handed) t.settled (reject_all t.queue) a
                (All-reject_all t.handed t.queue);
          flies = tt;
          shut = λ c. (refl, refl, refl);
          served = λ p n. refl;
        },
        append_nil (firsts (t.settled ++ reject_all t.queue))
            ∙ firsts-append t.settled (reject_all t.queue)
            ∙ ap (λ x. firsts t.settled ++ x) (firsts-reject_all t.queue),
      )

pub close_lem :
    (s : SubscribeConsumer) → IsReady s → IsConsumer (close s) × (kept (close s) ≡ kept s)
unfolding close
close_lem s h = by_closed s.closed refl
  where
    t : SubscribeConsumer
    t = settle_inflight rejected s

    shutting : IsConsumer (drop_queue t) × (kept (drop_queue t) ≡ kept s)
    shutting =
        let k = settle_inflight_lem rejected s (inl refl) h.acks in
        let (c, q) = drop_queue_lem t k.empty k.acks in (c, q ∙ k.same)

    by_closed :
        (b : Bool)
        → s.closed ≡ b
        → IsConsumer (if b then s else drop_queue t)
          × (kept (if b then s else drop_queue t) ≡ kept s)
    by_closed true c = (
      record { acks = h.acks; flies = h.flies; shut = h.shut; served = λ p n. (h.shut c).1 },
      refl,
    )
    by_closed false c = shutting
