-- ===== src/Store/Queries/Pending.antt =====
-- `loadPending`: the oldest pending rows, in order.
use watukuy.Base.{
  ℕ, zero, suc, ◌≤◌, Bool, true, ◌≡◌, refl, ◌⊎◌, inl, inr, List, [], ◌∷◌, arith, leb→le, All, In,
  All_at, All-take, All-map, In-filter, filter-In, take, length, filter, length-take, min, ap, ◌∙◌,
}
use watukuy.Base.Map
use watukuy.Base.Sort.{sort, IsSorted, sort-IsSorted, In-sort, All-sort, length-sort}
use watukuy.Types.{PKey, OutboxRow}
use watukuy.Store.{MemoryStore, record_of}
use watukuy.Store.Queries.{load_pending, is_pending, by_sequence}

by_sequence_total : (a b : OutboxRow) → (by_sequence a b ≡ true) ⊎ (by_sequence b a ≡ true)
by_sequence_total a b = ground arith

by_sequence_trans :
    (a b c : OutboxRow) → by_sequence a b ≡ true → by_sequence b c ≡ true → by_sequence a c ≡ true
by_sequence_trans a b c p q = ground arith

module _ {A : Type 0} (le : A → A → Bool) where
  take-IsSorted : (n : ℕ) (xs : List A) → IsSorted le xs → IsSorted le (take n xs)
  take-IsSorted zero xs h = tt
  take-IsSorted (suc n) [] h = tt
  take-IsSorted (suc n) (x ∷ xs) h =
      (All-take (λ y. le x y ≡ true) n xs h.0, take-IsSorted n xs h.1)

  -- A member of a sorted list is in its first `n` elements, or all of these come before it.
  take_oldest :
      (n : ℕ) (xs : List A) (x : A)
      → IsSorted le xs
      → In x xs
      → In x (take n xs) ⊎ All (λ y. le y x ≡ true) (take n xs)
  take_oldest zero xs x h i = inr tt
  take_oldest (suc n) [] x h i = absurd i
  take_oldest (suc n) (y ∷ xs) x h (inl e) = inl (inl e)
  take_oldest (suc n) (y ∷ xs) x h (inr i) = elim (take_oldest n xs x h.1 i) [
    | inl j ↦ inl (inr j)
    | inr a ↦ inr (All_at (λ z. le y z ≡ true) xs x h.0 i, a)
  ]

All-In {ℓ} : {A : Type 0} (P : A → Type ℓ) (xs : List A) → ((x : A) → In x xs → P x) → All P xs
All-In P [] h = tt
All-In P (x ∷ xs) h = (h x (inl refl), All-In P xs (λ y i. h y (inr i)))

-- The rows that `loadPending` gives are pending rows of the outbox, `limit` of them or all where there
-- are fewer, in the order
-- of their sequence numbers; and every pending row of the outbox is among them or has a sequence
-- number no smaller than theirs, so that no younger event is given before an older one.
pub load_pending_lem :
    (s : MemoryStore) (key : PKey) (limit : ℕ)
    → let rows = load_pending s key limit in
      let outbox = Map.values (record_of s key).outbox in
      All (λ r. In r outbox × (is_pending r ≡ true)) rows
      × (length rows ≡ min limit (length (filter is_pending outbox)))
      × IsSorted by_sequence rows
      × ((r : OutboxRow)
          → In r outbox
          → is_pending r ≡ true
          → In r rows ⊎ All (λ x. x.sequence ≤ r.sequence) rows)
unfolding load_pending
load_pending_lem s key limit =
    let outbox = Map.values (record_of s key).outbox in
    let found = filter is_pending outbox in
    let sorted = sort-IsSorted by_sequence by_sequence_total by_sequence_trans found in
    (
      All-take _ limit (sort by_sequence found)
          (All-sort by_sequence _ found (All-In _ found (λ r i. filter-In is_pending outbox r i))),
      length-take limit (sort by_sequence found) ∙ ap (min limit) (length-sort by_sequence found),
      take-IsSorted by_sequence limit (sort by_sequence found) sorted,
      λ r i p. older r (take limit (sort by_sequence found)) (
          take_oldest by_sequence limit (sort by_sequence found) r sorted
            (In-sort by_sequence r found (In-filter is_pending outbox r p i))),
    )
  where
    older :
        (r : OutboxRow) (xs : List OutboxRow)
        → In r xs ⊎ All (λ x. by_sequence x r ≡ true) xs
        → In r xs ⊎ All (λ x. x.sequence ≤ r.sequence) xs
    older r xs (inl i) = inl i
    older r xs (inr a) = inr (All-map (λ x h. leb→le x.sequence r.sequence h) xs a)
