-- ===== src/Base/Sort.antt =====
-- `Array.prototype.sort` with a comparator: a stable sort, here by insertion.
use watukuy.Base.Tests.{if◌then◌else◌, Bool-cases}
use watukuy.Base.Lists.{length, All, In, All-map}
use native.Mathlib.Omega.{arith}
use Prim.Native.Nat.{◌+◌}
use mathlib.Core.Path.{refl, ◌≡◌}
use mathlib.Core.Bool.{Bool, true, false}
use mathlib.Core.Logic.{◌⊎◌, inl, inr}
use mathlib.Core.List.{List, [], ◌∷◌, Perm}
use mathlib.Core.List.Perm

-- Equal elements keep their order: `x` stood before the list that it is put into.
module _ {ℓ} {A : Type ℓ} (le : A → A → Bool) where
  unfoldable pub insert : A → List A → List A
  insert x [] = x ∷ []
  insert x (y ∷ ys) = let rest = insert x ys in if le x y then x ∷ y ∷ ys else y ∷ rest

  unfoldable pub sort : List A → List A
  unfolding insert
  sort [] = []
  sort (x ∷ xs) = insert x (sort xs)

  insert-perm : (x : A) (xs : List A) → Perm (insert x xs) (x ∷ xs)
  unfolding insert
  insert-perm x [] = Perm.refl (x ∷ [])
  insert-perm x (y ∷ ys) = elim (Bool-cases (le x y)) [
    | inl h ↦ rw (h) (Perm.refl (x ∷ y ∷ ys))
    | inr h ↦ rw (h) (Perm.trans (Perm.cons y (insert-perm x ys)) (Perm.swap x y ys))
  ]

  -- Sorting keeps the elements.
  pub sort-perm : (xs : List A) → Perm (sort xs) xs
  unfolding sort
  sort-perm [] = Perm.refl []
  sort-perm (x ∷ xs) = Perm.trans (insert-perm x (sort xs)) (Perm.cons x (sort-perm xs))

  length-insert : (x : A) (xs : List A) → length (insert x xs) ≡ length xs + 1
  unfolding insert
  length-insert x [] = refl
  length-insert x (y ∷ ys) = elim (Bool-cases (le x y)) [
    | inl h ↦ rw h (omega arith)
    | inr h ↦ rw h (omega (arith, length-insert x ys))
  ]

  pub length-sort : (xs : List A) → length (sort xs) ≡ length xs
  unfolding sort
  length-sort [] = refl
  length-sort (x ∷ xs) = omega (arith, length-insert x (sort xs), length-sort xs)

  -- Each element comes before or level with all that follow.
  abbrev pub IsSorted : List A → Type 0
  IsSorted [] = Unit
  IsSorted (x ∷ xs) = All (λ y. le x y ≡ true) xs × IsSorted xs

  All-insert {κ} : (P : A → Type κ) (x : A) (xs : List A) → P x → All P xs → All P (insert x xs)
  unfolding insert
  All-insert P x [] p h = (p, tt)
  All-insert P x (y ∷ ys) p h = elim (Bool-cases (le x y)) [
    | inl t ↦ rw t (p, h)
    | inr t ↦ rw t (h.0, All-insert P x ys p h.1)
  ]

  -- What holds of every element holds of every element of the sorted list.
  pub All-sort {κ} : (P : A → Type κ) (xs : List A) → All P xs → All P (sort xs)
  unfolding sort
  All-sort P [] h = tt
  All-sort P (x ∷ xs) h = All-insert P x (sort xs) h.0 (All-sort P xs h.1)

module _ {ℓ} {A : Type ℓ} (le : A → A → Bool)
    (total : (a b : A) → (le a b ≡ true) ⊎ (le b a ≡ true))
    (trans : (a b c : A) → le a b ≡ true → le b c ≡ true → le a c ≡ true) where
  insert-IsSorted : (x : A) (xs : List A) → IsSorted le xs → IsSorted le (insert le x xs)
  unfolding insert
  insert-IsSorted x [] h = (tt, tt)
  insert-IsSorted x (y ∷ ys) h = elim (Bool-cases (le x y)) [
    | inl t ↦ rw t ((t, All-map (λ z. trans x y z t) ys h.0), h)
    | inr t ↦ rw t (
      All-insert le (λ z. le y z ≡ true) x ys (other t (total x y)) h.0,
      insert-IsSorted x ys h.1,
    )
  ]
    where
      other : le x y ≡ false → (le x y ≡ true) ⊎ (le y x ≡ true) → le y x ≡ true
      other f (inl g) = cc
      other f (inr g) = g

  -- The result of a sort is sorted, where the comparator is a total preorder.
  pub sort-IsSorted : (xs : List A) → IsSorted le (sort le xs)
  unfolding sort
  sort-IsSorted [] = tt
  sort-IsSorted (x ∷ xs) = insert-IsSorted x (sort le xs) (sort-IsSorted xs)

module _ {A : Type 0} (le : A → A → Bool) where
  In-insert : (x z : A) (xs : List A) → In z (x ∷ xs) → In z (insert le x xs)
  unfolding insert
  In-insert x z [] m = m
  In-insert x z (y ∷ ys) m = elim (Bool-cases (le x y)) [
    | inl t ↦ rw t m
    | inr t ↦ rw t (place (In-insert x z ys) m)
  ]
    where
      place :
          (In z (x ∷ ys) → In z (insert le x ys)) → In z (x ∷ y ∷ ys) → In z (y ∷ insert le x ys)
      place ih (inl e) = inr (ih (inl e))
      place ih (inr (inl e)) = inl e
      place ih (inr (inr n)) = inr (ih (inr n))

  pub In-sort : (z : A) (xs : List A) → In z xs → In z (sort le xs)
  unfolding sort
  In-sort z [] m = m
  In-sort z (x ∷ xs) (inl e) = In-insert x z (sort le xs) (inl e)
  In-sort z (x ∷ xs) (inr m) = In-insert x z (sort le xs) (inr (In-sort z xs m))

  insert-In : (x z : A) (xs : List A) → In z (insert le x xs) → In z (x ∷ xs)
  unfolding insert
  insert-In x z [] m = m
  insert-In x z (y ∷ ys) m = elim (Bool-cases (le x y)) [
    | inl t ↦ rw t at m
    | inr t ↦ place (insert-In x z ys) (rw t at m)
  ]
    where
      place :
          (In z (insert le x ys) → In z (x ∷ ys)) → In z (y ∷ insert le x ys) → In z (x ∷ y ∷ ys)
      place ih (inl e) = inr (inl e)
      place ih (inr n) = elim (ih n) [ inl e ↦ inl e | inr k ↦ inr (inr k) ]

  pub sort-In : (z : A) (xs : List A) → In z (sort le xs) → In z xs
  unfolding sort
  sort-In z [] m = m
  sort-In z (x ∷ xs) m = elim (insert-In x z (sort le xs) m) [
    | inl e ↦ inl e
    | inr n ↦ inr (sort-In z xs n)
  ]
