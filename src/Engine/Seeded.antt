-- ===== src/Engine/Seeded.antt =====
-- src/core/engine.ts: the keys that a refresh of the partitions makes due.
use watukuy.Base.{
  Option-cases, sym, none, if◌then◌else◌, ap, or_else, some, ℕ, true, false, String, string_eq,
  List, [], ◌∷◌, elem, ◌≡◌, refl, arith, ◌∙◌, ==-refl, ==-true, Bool-cases, inl, inr, ◌==◌,
}
use watukuy.Base.Map
use watukuy.Base.Map.{Map}
use watukuy.Types.{PKey, pkey_eq}
use watukuy.Engine.Partitions.{key_of, seed_one, seed_due}

module _ (poller : String) (now : ℕ) where
  -- A seeded key keeps its time, and is due now where it had none.
  seed_one-get :
      (due : Map PKey ℕ) (q : String) (k : PKey)
      → Map.get k (seed_one poller now q due)
        ≡ (if key_of poller q == k then some (or_else (Map.get k due) now) else Map.get k due)
  seed_one-get due q k = elim (Option-cases (Map.get (key_of poller q) due)) [
    | inl n ↦ rw n (Map.get-set (key_of poller q) k now due ∙ at_none n)
    | inr (at, e) ↦ rw e (at_some at e)
  ]
    where
      at_none :
          Map.get (key_of poller q) due ≡ none
          → (if key_of poller q == k then some now else Map.get k due)
            ≡ (if key_of poller q == k then some (or_else (Map.get k due) now) else Map.get k due)
      at_none n = elim (Bool-cases (key_of poller q == k)) [
        | inl t ↦ rw t (
            ap (λ o. some (or_else o now))
              (sym
                (ap (λ j. Map.get j due) (sym ((pkey_eq.same_iff (key_of poller q) k).0 t)) ∙ n)))
        | inr f ↦ rw f refl
      ]

      at_some :
          (at : ℕ)
          → Map.get (key_of poller q) due ≡ some at
          → Map.get k due
            ≡ (if key_of poller q == k then some (or_else (Map.get k due) now) else Map.get k due)
      at_some at e = elim (Bool-cases (key_of poller q == k)) [
        | inl t ↦
            let here : Map.get k due ≡ some at =
              ap (λ j. Map.get j due) (sym ((pkey_eq.same_iff (key_of poller q) k).0 t)) ∙ e in
            rw t (here ∙ ap (λ o. some (or_else o now)) (sym here))
        | inr f ↦ rw f refl
      ]

  -- A key that has a time keeps it.
  seed_due-kept :
      (ps : List String) (due : Map PKey ℕ) (k : PKey) (at : ℕ)
      → Map.get k due ≡ some at
      → Map.get k (seed_due poller now ps due) ≡ some at
  unfolding seed_due
  seed_due-kept [] due k at h = h
  seed_due-kept (p ∷ ps) due k at h = seed_due-kept ps (seed_one poller now p due) k at (
      seed_one-get due p k ∙ elim (Bool-cases (key_of poller p == k)) [
        | inl t ↦ rw (t, h) refl
        | inr f ↦ rw (f, h) refl
      ])

  pub seed_due-listed :
      (ps : List String) (due : Map PKey ℕ) (p : String)
      → elem p ps ≡ true
      → Map.get (key_of poller p) (seed_due poller now ps due)
        ≡ some (or_else (Map.get (key_of poller p) due) now)
  unfolding seed_due elem
  seed_due-listed [] due p h = absurd (cc h)
  seed_due-listed (q ∷ ps) due p h = elim (Bool-cases (key_of poller q == key_of poller p)) [
    | inl t ↦
        seed_due-kept ps (seed_one poller now q due) (key_of poller p)
          (or_else (Map.get (key_of poller p) due) now)
          (seed_one-get due q (key_of poller p) ∙ rw t refl)
    | inr f ↦
        seed_due-listed ps (seed_one poller now q due) p (further f)
        ∙ ap (λ o. some (or_else o now)) (left_alone f)
  ]
    where
      left_alone :
          (key_of poller q == key_of poller p) ≡ false
          → Map.get (key_of poller p) (seed_one poller now q due) ≡ Map.get (key_of poller p) due
      left_alone f = seed_one-get due q (key_of poller p) ∙ rw f refl

      further : (key_of poller q == key_of poller p) ≡ false → elem p ps ≡ true
      further f = elim (Bool-cases (q == p)) [
        | inl t ↦ absurd (
            cc (
              f,
              (pkey_eq.same_iff (key_of poller q) (key_of poller p)).1
                  (ap (key_of poller) (==-true q p t)),
            ))
        | inr n ↦ ground (arith, h, n)
      ]

  pub seed_due-others :
      (ps : List String) (due : Map PKey ℕ) (k : PKey)
      → ((p : String) → elem p ps ≡ true → (key_of poller p == k) ≡ false)
      → Map.get k (seed_due poller now ps due) ≡ Map.get k due
  unfolding seed_due elem
  seed_due-others [] due k h = refl
  seed_due-others (p ∷ ps) due k h =
      seed_due-others ps _ k (λ q m. h q (ground (arith, m)))
      ∙ elim (Bool-cases (Map.has (key_of poller p) due)) [
        | inl t ↦ rw t refl
        | inr f ↦ rw f (rw (Map.get-set, h p (ground (arith, ==-refl p))) refl)
      ]
