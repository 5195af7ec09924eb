-- ===== src/Base/Map.antt =====
-- The `Map` of the language: an association list in insertion order. A write to a key that is
-- there keeps its place; a write to a new key goes to the end.
use watukuy.Base.Tests.{Key, ◌==◌, if◌then◌else◌, is_some, ==-refl, Bool-cases}
use watukuy.Base.Lists.{In, elem}
use mathlib.Core.Path.{◌≡◌, refl, sym, ◌∙◌, subst}
use mathlib.Core.Bool.{Bool, true}
use mathlib.Core.Logic.{inl, inr, ◌≢◌}
use mathlib.Core.Option.{Option, none, some}
use mathlib.Core.List.{List, [], ◌∷◌, map}
use native.Mathlib.Omega.{arith}

abbrev pub Map {ℓ κ} : Type ℓ → Type κ → Type (ℓ ⊔ κ)
Map K V = List (K × V)

module _ {ℓ κ} {K : Type ℓ} {V : Type κ} where
  abbrev pub keys : Map K V → List K
  keys = map (λ p. p.0)

  abbrev pub values : Map K V → List V
  values = map (λ p. p.1)

module _ {ℓ κ} {K : Type ℓ} {V : Type κ} ⦃e : Key K⦄ where
  unfoldable pub get : K → Map K V → Option V
  get k [] = none
  get k ((j, v) ∷ m) = if j == k then some v else get k m

  unfoldable pub set : K → V → Map K V → Map K V
  set k v [] = (k, v) ∷ []
  set k v ((j, w) ∷ m) = if j == k then (j, v) ∷ m else (j, w) ∷ set k v m

  unfoldable pub delete : K → Map K V → Map K V
  delete k [] = []
  delete k ((j, w) ∷ m) = let rest = delete k m in if j == k then rest else (j, w) ∷ rest

  abbrev pub has : K → Map K V → Bool
  has k m = is_some (get k m)

  -- What a key holds after a write to any key.
  pub get-set :
      (k j : K) (v : V) (m : Map K V) → get j (set k v m) ≡ (if k == j then some v else get j m)
  unfolding get set
  get-set k j v [] = refl
  get-set k j v ((i, w) ∷ m) =
      ground (arith, e.same_iff k j, e.same_iff i k, e.same_iff i j, get-set k j v m)

  -- What a key holds after a delete of any key.
  pub get-delete : (k j : K) (m : Map K V) → get j (delete k m) ≡ (if k == j then none else get j m)
  unfolding get delete
  get-delete k j [] = ground arith
  get-delete k j ((i, w) ∷ m) =
      ground (arith, e.same_iff k j, e.same_iff i k, e.same_iff i j, get-delete k j m)

  pub get-set_self : (k : K) (v : V) (m : Map K V) → get k (set k v m) ≡ some v
  get-set_self k v m = simp (get-set, ==-refl)

  -- No element is filed under `k`; no two elements are filed under one key.
  abbrev pub Absent : (V → K) → K → List V → Type ℓ
  Absent key_of k [] = Unit
  Absent key_of k (x ∷ xs) = (key_of x ≢ k) × Absent key_of k xs

  abbrev pub Distinct : (V → K) → List V → Type ℓ
  Distinct key_of [] = Unit
  Distinct key_of (x ∷ xs) = Absent key_of (key_of x) xs × Distinct key_of xs

  -- `for (const x of xs) m.set(x.key, x)`
  unfoldable pub set_all : (V → K) → List V → Map K V → Map K V
  set_all key_of [] m = m
  set_all key_of (x ∷ xs) m = set_all key_of xs (set (key_of x) x m)

  -- `for (const k of ks) m.delete(k)`
  unfoldable pub delete_all : List K → Map K V → Map K V
  delete_all [] m = m
  delete_all (k ∷ ks) m = delete_all ks (delete k m)

  pub get-set_all-Absent :
      (key_of : V → K) (xs : List V) (k : K) (m : Map K V)
      → Absent key_of k xs
      → get k (set_all key_of xs m) ≡ get k m
  unfolding set_all
  get-set_all-Absent key_of [] k m h = refl
  get-set_all-Absent key_of (x ∷ xs) k m h =
      get-set_all-Absent key_of xs k (set (key_of x) x m) h.1
      ∙ rw get-set (ground (arith, e.same_iff (key_of x) k, h.0))

  pub get-delete_all :
      (ks : List K) (k : K) (m : Map K V)
      → get k (delete_all ks m) ≡ (if elem k ks then none else get k m)
  unfolding delete_all elem
  get-delete_all [] k m = refl
  get-delete_all (j ∷ ks) k m = get-delete_all ks k (delete j m) ∙ rw get-delete (ground arith)

  pub has-set : (k j : K) (v : V) (m : Map K V) → has j m ≡ true → has j (set k v m) ≡ true
  has-set k j v m h = rw get-set (ground arith)

  pub has-set_all :
      (key_of : V → K) (xs : List V) (k : K) (m : Map K V)
      → has k m ≡ true
      → has k (set_all key_of xs m) ≡ true
  unfolding set_all
  has-set_all key_of [] k m h = h
  has-set_all key_of (x ∷ xs) k m h =
      has-set_all key_of xs k (set (key_of x) x m) (has-set (key_of x) k x m h)

-- What is filed under one key only, in a map as it is built.
module _ {ℓ κ} {K : Type ℓ} {V : Type κ} ⦃e : Key K⦄ where
  abbrev pub key : K × V → K
  key p = p.0

  Absent-set : (j k : K) (v : V) (m : Map K V) → k ≢ j → Absent key j m → Absent key j (set k v m)
  unfolding set
  Absent-set j k v [] n h = (n, tt)
  Absent-set j k v ((i, w) ∷ m) n h = elim (Bool-cases (i == k)) [
    | inl t ↦ rw t h
    | inr t ↦ rw t (h.0, Absent-set j k v m n h.1)
  ]

  pub Distinct-set : (k : K) (v : V) (m : Map K V) → Distinct key m → Distinct key (set k v m)
  unfolding set
  Distinct-set k v [] d = (tt, tt)
  Distinct-set k v ((i, w) ∷ m) d = elim (Bool-cases (i == k)) [
    | inl t ↦ rw t d
    | inr t ↦
        rw t (
          Absent-set i k v m (λ p. ground (arith, e.same_iff i k, p, t)) d.0,
          Distinct-set k v m d.1,
        )
  ]

module _ {K V : Type 0} ⦃e : Key K⦄ where
  pub get-set_all-In :
      (key_of : V → K) (xs : List V) (x : V) (m : Map K V)
      → Distinct key_of xs
      → In x xs
      → get (key_of x) (set_all key_of xs m) ≡ some x
  unfolding set_all
  get-set_all-In key_of [] x m d n = absurd n
  get-set_all-In key_of (y ∷ xs) x m d (inl p) =
      subst (λ z. get (key_of z) (set_all key_of xs (set (key_of y) y m)) ≡ some z) p
        (get-set_all-Absent key_of xs (key_of y) (set (key_of y) y m) d.0
          ∙ get-set_self (key_of y) y m)
  get-set_all-In key_of (y ∷ xs) x m d (inr n) =
      get-set_all-In key_of xs x (set (key_of y) y m) d.1 n

  Absent-In : (f : K × V → K) (k : K) (xs : Map K V) (x : K × V) → Absent f k xs → In x xs → f x ≢ k
  Absent-In f k [] x a n = absurd n
  Absent-In f k (y ∷ xs) x a (inl p) = subst (λ z. f z ≢ k) p a.0
  Absent-In f k (y ∷ xs) x a (inr n) = Absent-In f k xs x a.1 n

  -- In a map, an entry is what its key gives, and the other way round.
  pub get-entry : (m : Map K V) (p : K × V) → Distinct key m → In p m → get p.0 m ≡ some p.1
  unfolding get
  get-entry [] p d n = absurd n
  get-entry ((i, w) ∷ m) p d (inl q) =
      subst (λ z. get z.0 ((i, w) ∷ m) ≡ some z.1) q (rw (==-refl i) refl)
  get-entry ((i, w) ∷ m) p d (inr n) = ground (
    arith,
    e.same_iff i p.0,
    get-entry m p d.1 n,
    λ (q : i ≡ p.0). Absent-In key i m p d.0 n (sym q),
  )

  pub entry-get : (m : Map K V) (k : K) (v : V) → get k m ≡ some v → In (k, v) m
  unfolding get
  entry-get [] k v h = absurd (cc h)
  entry-get ((i, w) ∷ m) k v h = elim (Bool-cases (i == k)) [
    | inl t ↦ inl (cc ((e.same_iff i k).0 t, rw t at h))
    | inr t ↦ inr (entry-get m k v (rw t at h))
  ]
