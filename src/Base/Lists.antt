-- ===== src/Base/Lists.antt =====
-- Lists over the native numbers, and predicates on lists by recursion.
use Prim.Native.Nat.{min, ℕ, zero, suc, ◌+◌, ◌≤◌, max}
use mathlib.Core.Path.{◌≡◌, refl, sym, ap, ◌∙◌, subst}
use mathlib.Core.Bool.{Bool, true, false, ◌||◌}
use mathlib.Core.Logic.{◌⊎◌, inl, inr}
use mathlib.Core.List.{List, [], ◌∷◌, ◌++◌}
use native.Mathlib.Omega.{arith}
use watukuy.Base.Tests.{if◌then◌else◌, Bool-cases, Key, ◌==◌}

module _ {ℓ} {A : Type ℓ} where
  abbrev pub length : List A → ℕ
  length [] = 0
  length (x ∷ xs) = suc (length xs)

  -- `xs.slice(0, n)`
  abbrev pub take : ℕ → List A → List A
  take zero xs = []
  take (suc n) [] = []
  take (suc n) (x ∷ xs) = x ∷ take n xs

  -- `xs.slice(n)`
  abbrev pub drop : ℕ → List A → List A
  drop zero xs = xs
  drop (suc n) [] = []
  drop (suc n) (x ∷ xs) = drop n xs

  -- `xs.filter(p)`
  abbrev pub filter : (A → Bool) → List A → List A
  filter p [] = []
  filter p (x ∷ xs) = if p x then x ∷ filter p xs else filter p xs

  pub length-append : (xs ys : List A) → length (xs ++ ys) ≡ length xs + length ys
  length-append [] ys = omega arith
  length-append (x ∷ xs) ys = omega (arith, length-append xs ys)

  pub length-filter-le : (p : A → Bool) (xs : List A) → length (filter p xs) ≤ length xs
  length-filter-le p [] = omega arith
  length-filter-le p (x ∷ xs) = ground (arith, length-filter-le p xs)

-- Every element satisfies `P`; some element satisfies `P`; `x` is an element.
abbrev pub All {ℓ κ} : {A : Type ℓ} → (A → Type κ) → List A → Type κ
All P [] = Unit
All P (x ∷ xs) = P x × All P xs

abbrev pub Some {ℓ} : {A : Type ℓ} → (A → Type 0) → List A → Type 0
Some P [] = ⊥
Some P (x ∷ xs) = P x ⊎ Some P xs

abbrev pub In : {A : Type 0} → A → List A → Type 0
In x xs = Some (λ y. y ≡ x) xs

module _ {ℓ} {A : Type ℓ} where
  pub All-map {κ μ} :
      {P : A → Type κ} {Q : A → Type μ}
      → ((a : A) → P a → Q a)
      → (xs : List A) → All P xs
      → All Q xs
  All-map f [] h = tt
  All-map f (x ∷ xs) h = (f x h.0, All-map f xs h.1)

  pub All-filter {κ} :
      (P : A → Type κ) (p : A → Bool) (xs : List A) → All P xs → All P (filter p xs)
  All-filter P p [] h = tt
  All-filter P p (x ∷ xs) h = elim (Bool-cases (p x)) [
    | inl t ↦ rw t (h.0, All-filter P p xs h.1)
    | inr t ↦ rw t (All-filter P p xs h.1)
  ]

  pub All-take {κ} : (P : A → Type κ) (n : ℕ) (xs : List A) → All P xs → All P (take n xs)
  All-take P zero xs h = tt
  All-take P (suc n) [] h = tt
  All-take P (suc n) (x ∷ xs) h = (h.0, All-take P n xs h.1)

  pub All-append {κ} : (P : A → Type κ) (xs ys : List A) → All P xs → All P ys → All P (xs ++ ys)
  All-append P [] ys h k = k
  All-append P (x ∷ xs) ys h k = (h.0, All-append P xs ys h.1 k)

  pub length-take : (n : ℕ) (xs : List A) → length (take n xs) ≡ min n (length xs)
  length-take zero xs = omega arith
  length-take (suc n) [] = omega arith
  length-take (suc n) (x ∷ xs) = omega (arith, length-take n xs)

  pub length-take-le : (n : ℕ) (xs : List A) → length (take n xs) ≤ n
  length-take-le zero xs = omega arith
  length-take-le (suc n) [] = omega arith
  length-take-le (suc n) (x ∷ xs) = omega (arith, length-take-le n xs)

  pub take-drop : (n : ℕ) (xs : List A) → take n xs ++ drop n xs ≡ xs
  take-drop zero xs = refl
  take-drop (suc n) [] = refl
  take-drop (suc n) (x ∷ xs) = ap (◌∷◌ x) (take-drop n xs)

  pub length-drop : (n : ℕ) (xs : List A) → length (drop n xs) + n ≤ max (length xs) n
  length-drop zero xs = omega arith
  length-drop (suc n) [] = omega arith
  length-drop (suc n) (x ∷ xs) = omega (arith, length-drop n xs)

  pub take_all : (n : ℕ) (xs : List A) → length xs ≤ n → take n xs ≡ xs
  take_all zero [] h = refl
  take_all zero (x ∷ xs) h = absurd (omega arith)
  take_all (suc n) [] h = refl
  take_all (suc n) (x ∷ xs) h = ap (◌∷◌ x) (take_all n xs (omega arith))

pub All_at : {A : Type 0} (P : A → Type 0) (xs : List A) (x : A) → All P xs → In x xs → P x
All_at P [] x h m = absurd m
All_at P (y ∷ ys) x h (inl e) = subst P e h.0
All_at P (y ∷ ys) x h (inr m) = All_at P ys x h.1 m

pub In-filter :
    {A : Type 0} (p : A → Bool) (xs : List A) (x : A) → p x ≡ true → In x xs → In x (filter p xs)
In-filter p [] x h m = m
In-filter p (y ∷ ys) x h (inl e) = rw (ap p e ∙ h) (inl e)
In-filter p (y ∷ ys) x h (inr m) = elim (Bool-cases (p y)) [
  | inl t ↦ rw t (inr (In-filter p ys x h m))
  | inr t ↦ rw t (In-filter p ys x h m)
]

pub filter-In :
    {A : Type 0} (p : A → Bool) (xs : List A) (x : A) → In x (filter p xs) → In x xs × (p x ≡ true)
filter-In p [] x m = absurd m
filter-In {A} p (y ∷ ys) x m = go (Bool-cases (p y)) (filter-In p ys x)
  where
    keep :
        p y ≡ true
        → (In x (filter p ys) → In x ys × (p x ≡ true))
        → (y ≡ x) ⊎ In x (filter p ys)
        → In x (y ∷ ys) × (p x ≡ true)
    keep t ih (inl e) = (inl e, ap p (sym e) ∙ t)
    keep t ih (inr n) = (inr (ih n).0, (ih n).1)

    go :
        (p y ≡ true) ⊎ (p y ≡ false)
        → (In x (filter p ys) → In x ys × (p x ≡ true))
        → In x (y ∷ ys) × (p x ≡ true)
    go (inl t) ih = keep t ih (rw t at m)
    go (inr t) ih = let n = rw t at m in (inr (ih n).0, (ih n).1)

-- `xs.includes(k)`, `set.has(k)`
unfoldable pub elem {ℓ} : {K : Type ℓ} ⦃e : Key K⦄ → K → List K → Bool
elem k [] = false
elem k (x ∷ xs) = x == k || elem k xs

pub elem-In : {K : Type 0} ⦃e : Key K⦄ (k : K) (xs : List K) → elem k xs ≡ true → In k xs
unfolding elem
elem-In k [] h = absurd (cc h)
elem-In ⦃e⦄ k (x ∷ xs) h = elim (Bool-cases (x == k)) [
  | inl t ↦ inl ((e.same_iff x k).0 t)
  | inr t ↦ inr (elem-In k xs (rw t at h))
]

pub In-elem : {K : Type 0} ⦃e : Key K⦄ (k : K) (xs : List K) → In k xs → elem k xs ≡ true
unfolding elem
In-elem k [] h = absurd h
In-elem ⦃e⦄ k (x ∷ xs) (inl p) = rw ((e.same_iff x k).1 p)
In-elem k (x ∷ xs) (inr n) = ground (arith, In-elem k xs n)
