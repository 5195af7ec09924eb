-- ===== src/Dispatcher/Outbox.antt =====
-- src/core/dispatcher.ts: the rows of an outbox, and what one write does to their number.
use watukuy.Base.{
  ℕ, ◌+◌, ◌≤◌, ◌<◌, true, false, Option, String, [], ◌∷◌, ◌≡◌, ◌≢◌, ◌⊎◌, refl, sym, ◌∙◌, subst,
  arith, length, All, All_at, In, inl, inr, Key, Bool-cases, Option-cases, ◌==◌, string_eq, ==-refl,
  nat_eqb, ==-true,
}
use watukuy.Base.Map
use watukuy.Base.Map.{Map, has-set, entry-get}
use watukuy.Types.{OutboxRow, SerializedError, pkey_eq}
use watukuy.Store.Rows.{bump_attempt, attempted}

module _ {K V : Type 0} ⦃e : Key K⦄ where
  pub length-delete_le : (k : K) (m : Map K V) → length (Map.delete k m) ≤ length m
  unfolding Map.delete
  length-delete_le k [] = omega arith
  length-delete_le k ((j, v) ∷ m) = ground (arith, length-delete_le k m)

  pub length-delete_lt :
      (k : K) (m : Map K V) → Map.has k m ≡ true → length (Map.delete k m) < length m
  unfolding Map.delete Map.get
  length-delete_lt k [] h = absurd (cc h)
  length-delete_lt k ((j, v) ∷ m) h = ground (arith, length-delete_le k m, length-delete_lt k m)

  pub length-set :
      (k : K) (v : V) (m : Map K V) → Map.has k m ≡ true → length (Map.set k v m) ≡ length m
  unfolding Map.set Map.get
  length-set k v [] h = absurd (cc h)
  length-set k v ((j, w) ∷ m) h = ground (arith, length-set k v m)

  pub All-delete : (P : K × V → Type 0) (k : K) (m : Map K V) → All P m → All P (Map.delete k m)
  unfolding Map.delete
  All-delete P k [] h = tt
  All-delete P k ((j, v) ∷ m) h = elim (Bool-cases (j == k)) [
    | inl t ↦ rw t (All-delete P k m h.1)
    | inr f ↦ rw f (h.0, All-delete P k m h.1)
  ]

  pub All-set :
      (P : K × V → Type 0) (k : K) (v : V) (m : Map K V)
      → P (k, v)
      → All P m
      → All P (Map.set k v m)
  unfolding Map.set
  All-set P k v [] p h = (p, tt)
  All-set P k v ((j, w) ∷ m) p h = elim (Bool-cases (j == k)) [
    | inl t ↦ rw t (subst (λ i. P (i, v)) (sym (==-true j k t)) p, h.1)
    | inr f ↦ rw f (h.0, All-set P k v m p h.1)
  ]

  pub has-In : (m : Map K V) (p : K × V) → In p m → Map.has p.0 m ≡ true
  unfolding Map.get
  has-In [] p i = absurd i
  has-In ((j, w) ∷ m) p (inl q) =
      subst (λ (z : K × V). Map.has z.0 ((j, w) ∷ m) ≡ true) q (rw (==-refl j) refl)
  has-In ((j, w) ∷ m) p (inr i) = ground (arith, has-In m p i)

-- A row is filed under its event.
abbrev pub IsFiled : String × OutboxRow → Type 0
IsFiled p = (p.1.event_id ≡ p.0) × (p.1.event.id ≡ p.0)

abbrev pub IsOutbox : Map String OutboxRow → Type 0
IsOutbox = All IsFiled

-- The row of a slice is in the outbox, under its event.
abbrev pub Present : Map String OutboxRow → OutboxRow → Type 0
Present m r = (Map.has r.event_id m ≡ true) × (r.event.id ≡ r.event_id)

pub values-In :
    (m : Map String OutboxRow) (r : OutboxRow)
    → In r (Map.values m)
    → (p : String × OutboxRow) × In p m × (p.1 ≡ r)
values-In [] r i = absurd i
values-In (p ∷ m) r (inl e) = (p, inl refl, e)
values-In (p ∷ m) r (inr i) = let (q, j, e) = values-In m r i in (q, inr j, e)

pub IsOutbox-Present :
    (m : Map String OutboxRow) (r : OutboxRow) → IsOutbox m → In r (Map.values m) → Present m r
IsOutbox-Present m r o i =
    let (p, j, e) = values-In m r i in
    let filed = All_in m p o j in
    subst (Present m) e
      (subst (λ k. Map.has k m ≡ true) (sym filed.0) (has-In m p j), filed.1 ∙ sym filed.0)
  where
    All_in :
        (n : Map String OutboxRow) (p : String × OutboxRow) → All IsFiled n → In p n → IsFiled p
    All_in n p h j = All_at IsFiled n p h j

pub bump_attempt_lem :
    (id : String) (error : Option SerializedError) (at : Option ℕ) (m : Map String OutboxRow)
    → IsOutbox m
    → let n = bump_attempt id error at m in
      (length n ≡ length m) × ((k : String) → Map.has k m ≡ true → Map.has k n ≡ true) × IsOutbox n
unfolding bump_attempt
bump_attempt_lem id error at m o = elim (Option-cases (Map.get id m)) [
  | inl n ↦ rw (n, bump_attempt) (refl, λ k h. h, o)
  | inr (row, e) ↦
      let filed = All_at IsFiled m (id, row) o (entry-get m id row e) in
      rw (e, bump_attempt)
        (
          length-set id (attempted error at row) m (rw e refl),
          λ k h. has-set id k (attempted error at row) m h,
          All-set IsFiled id (attempted error at row) m filed o,
        )
]

-- The outbox since the start of a round, in which it was `m`: as it was, up to the rows' attempts, or
-- shorter.
abbrev pub Since : Map String OutboxRow → ℕ → Map String OutboxRow → Type 0
Since m progress n =
    IsOutbox n
    × (progress ≢ 0 → length n < length m)
    × (length n ≤ length m)
    × (progress ≡ 0 → (k : String) → Map.has k m ≡ true → Map.has k n ≡ true)

pub delete-Since :
    (m n : Map String OutboxRow) (id : String) (progress : ℕ)
    → Since m progress n
    → Map.has id m ≡ true
    → Since m (progress + 1) (Map.delete id n)
delete-Since m n id progress (o, shorter, le, same) h = (
  All-delete IsFiled id n o,
  λ _. less (Bool-cases (nat_eqb progress 0)),
  omega (arith, length-delete_le id n, le),
  λ e. absurd (omega (arith, e)),
)
  where
    less :
        (nat_eqb progress 0 ≡ true) ⊎ (nat_eqb progress 0 ≡ false)
        → length (Map.delete id n) < length m
    less (inl t) = omega (arith, le, length-delete_lt id n (same (ground (arith, t)) id h))
    less (inr f) = omega (arith, length-delete_le id n, shorter (ground (arith, f)))
