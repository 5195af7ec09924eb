-- ===== src/Diff/Repeated.antt =====
-- src/diff/diff.ts: a page whose rows are stored is prepared again.
use watukuy.Base.{
  ℕ, String, Bool, true, false, List, [], ◌∷◌, ◌==◌, string_eq, All, arith, ◌≡◌, ◌≢◌, refl, sym, ap,
  ◌∙◌, Bool-cases, inl, inr, ◌⊎◌, subst,
}
use watukuy.Base.Map
use watukuy.Base.Map.{Map}
use watukuy.Types.{ItemRow, ResolvedPoller, Value, ok, chain-ok}
use watukuy.Diff.{
  DiffCandidate, DiffResult, Prepared, identity_of, latest, prepare_loop, prepare_candidates,
  is_fast, version_of, fingerprint_of, diff_candidates,
}
use watukuy.Diff.Latest.{candidate_id, candidate_of, Distinct-latest, loop-Distinct}
use watukuy.Diff.Again.{Settled, id_of, upserts-Absent, All-Settled, nothing_new, Agrees}

All-Absent :
    {V : Type 0} (f : V → String) (k : String) (xs : List V)
    → Map.Absent f k xs
    → All (λ x. f x ≢ k) xs
All-Absent f k [] a = tt
All-Absent f k (x ∷ xs) a = (a.0, All-Absent f k xs a.1)

Absent-All :
    {V : Type 0} (f : V → String) (k : String) (xs : List V)
    → All (λ x. f x ≢ k) xs
    → Map.Absent f k xs
Absent-All f k [] a = tt
Absent-All f k (x ∷ xs) a = (a.0, Absent-All f k xs a.1)

set-All :
    (P : String → Type 0) (k : String) (v : Value) (m : Map String Value)
    → All (λ (e : String × Value). P e.0) m
    → P k
    → All (λ (e : String × Value). P e.0) (Map.set k v m)
unfolding Map.set
set-All P k v [] a p = (p, tt)
set-All P k v ((i, w) ∷ m) a p = elim (Bool-cases (i == k)) [
  | inl t ↦ rw t (a.0, a.1)
  | inr t ↦ rw t (a.0, set-All P k v m a.1 p)
]

-- What holds of the identity of every item holds of every key.
latest-All :
    (P : String → Type 0) (poller : ResolvedPoller) (items : List Value) (m m' : Map String Value)
    → All (λ item. (id : String) → identity_of poller item ≡ ok id → P id) items
    → All (λ (e : String × Value). P e.0) m
    → latest poller items m ≡ ok m'
    → All (λ (e : String × Value). P e.0) m'
unfolding latest
latest-All P poller [] m m' h a e = subst (All (λ (x : String × Value). P x.0)) (cc e) a
latest-All P poller (item ∷ items) m m' h a e =
    let (i, p, q) = chain-ok (identity_of poller item) _ e in
    latest-All P poller items (Map.set i item m) m' h.1 (set-All P i item m a (h.0 i p)) q

module _ (digest : String → List ℕ) (poller : ResolvedPoller) where
  -- How one round of the loop came out: by the version fast path, or with a candidate.
  Cases : Map String ItemRow → String → Value → Prepared → Prepared → Type 0
  Cases rows id item r s =
      ((is_fast poller (version_of poller item) (Map.get id rows) ≡ true)
        × (s.candidates ≡ r.candidates)
        × (s.unchanged ≡ id ∷ r.unchanged))
      ⊎ ((hash : String) × (fingerprint_of digest poller item ≡ ok hash)
          × (s.candidates ≡ candidate_of poller id item hash ∷ r.candidates)
          × (s.unchanged ≡ r.unchanged))

  cases :
      (rows : Map String ItemRow) (id : String) (item : Value) (more : Map String Value)
      (s : Prepared)
      → prepare_loop digest poller rows ((id, item) ∷ more) ≡ ok s
      → (r : Prepared) × (prepare_loop digest poller rows more ≡ ok r) × Cases rows id item r s
  unfolding prepare_loop Cases
  cases rows id item more s h =
      elim (Bool-cases (is_fast poller (version_of poller item) (Map.get id rows))) [
        | inl t ↦ let (r, p, q) = chain-ok _ _ (rw t at h) in (r, p, inl (t, cc q, cc q))
        | inr t ↦
            let (hash, p, q) = chain-ok _ _ (rw t at h) in
            let (r, u, v) = chain-ok _ _ q in (r, u, inr (hash, p, cc v, cc v))
      ]

  empty_loop :
      (rows : Map String ItemRow) (r : Prepared)
      → prepare_loop digest poller rows [] ≡ ok r
      → (r.candidates ≡ []) × (r.unchanged ≡ [])
  unfolding prepare_loop
  empty_loop rows r h = (cc h, cc h)

  -- What holds of the keys holds of the identities that the loop reports.
  abbrev Reports : (String → Type 0) → Prepared → Type 0
  Reports P r = All (λ (c : DiffCandidate). P c.identity) r.candidates × All P r.unchanged

  loop-All :
      (P : String → Type 0) (rows : Map String ItemRow) (m : Map String Value) (r : Prepared)
      → prepare_loop digest poller rows m ≡ ok r
      → All (λ (e : String × Value). P e.0) m
      → Reports P r
  unfolding Cases
  loop-All P rows [] r h a = let (u, v) = empty_loop rows r h in rw (u, v) (tt, tt)
  loop-All P rows ((id, item) ∷ more) s h a =
      let (r, p, q) = cases rows id item more s h in
      let ih = loop-All P rows more r p a.1 in
      elim q [
        | inl (t, u, v) ↦ rw (u, v) (ih.0, (a.0, ih.1))
        | inr (hash, t, u, v) ↦ rw (u, v) ((a.0, ih.0), ih.1)
      ]

  apart :
      (c : DiffCandidate) (cs : List DiffCandidate) (ids : List String)
      → All (λ j. j ≢ c.identity) ids
      → All (λ j. Map.Absent candidate_id j cs) ids
      → All (λ j. Map.Absent candidate_id j (c ∷ cs)) ids
  apart c cs [] a b = tt
  apart c cs (j ∷ ids) a b = ((λ e. a.0 (sym e), b.0), apart c cs ids a.1 b.1)

  -- An unchanged identity is no candidate's.
  loop-Apart :
      (rows : Map String ItemRow) (m : Map String Value) (r : Prepared)
      → prepare_loop digest poller rows m ≡ ok r
      → Map.Distinct Map.key m
      → All (λ id. Map.Absent candidate_id id r.candidates) r.unchanged
  unfolding Cases
  loop-Apart rows [] r h d = let (u, v) = empty_loop rows r h in rw v tt
  loop-Apart rows ((id, item) ∷ more) s h d =
      let (r, p, q) = cases rows id item more s h in
      let ih = loop-Apart rows more r p d.1 in
      let others = loop-All (λ j. j ≢ id) rows more r p (All-Absent Map.key id more d.0) in
      elim q [
        | inl (t, u, v) ↦ rw (u, v) (Absent-All candidate_id id r.candidates others.0, ih)
        | inr (hash, t, u, v) ↦
            rw (u, v)
              (apart (candidate_of poller id item hash) r.candidates r.unchanged others.1 ih)
      ]

  module _ (rows : Map String ItemRow) where
    -- The loop goes on over a page whose rest it gets through.
    one_more :
        (id : String) (item : Value) (more : Map String Value) (r : Prepared)
        → prepare_loop digest poller rows more ≡ ok r
        → All (Settled poller rows) r.candidates
        → (is_fast poller (version_of poller item) (Map.get id rows) ≡ false
            → (hash : String) × (fingerprint_of digest poller item ≡ ok hash)
              × Settled poller rows (candidate_of poller id item hash))
        → (s : Prepared) × (prepare_loop digest poller rows ((id, item) ∷ more) ≡ ok s)
          × All (Settled poller rows) s.candidates
    unfolding prepare_loop
    one_more id item more r p a slow =
        elim (Bool-cases (is_fast poller (version_of poller item) (Map.get id rows))) [
          | inl t ↦ (record r { unchanged = id ∷ r.unchanged }, rw (t, p) refl, a)
          | inr t ↦
              let (hash, q, settled) = slow t in
              (
                record r { candidates = candidate_of poller id item hash ∷ r.candidates },
                rw (t, q, p) refl,
                (settled, a),
              )
        ]

    -- A page that was prepared is prepared again over rows that its candidates settle and that keep
    -- the rows of its unchanged items: its candidates are among the first ones then.
    loop_again :
        (existing : Map String ItemRow) (m : Map String Value) (r : Prepared)
        → prepare_loop digest poller existing m ≡ ok r
        → All (λ id. Map.get id rows ≡ Map.get id existing) r.unchanged
        → All (Settled poller rows) r.candidates
        → (s : Prepared) × (prepare_loop digest poller rows m ≡ ok s)
          × All (Settled poller rows) s.candidates
    unfolding Cases
    loop_again existing [] r h k a =
        (record { candidates = []; unchanged = [] }, unfold prepare_loop in refl, tt)
    loop_again existing ((id, item) ∷ more) s h k a =
        let (r, p, q) = cases existing id item more s h in
        elim q [
          | inl (t, u, v) ↦
              let kept = subst (All (λ (j : String). Map.get j rows ≡ Map.get j existing)) v k in
              let (r', p', a') =
                loop_again existing more r p kept.1 (subst (All (Settled poller rows)) u a) in
              one_more id item more r' p' a' (λ f. absurd (ground arith))
          | inr (hash, t, u, v) ↦
              let settled = subst (All (Settled poller rows)) u a in
              let (r', p', a') =
                loop_again existing more r p
                  (subst (All (λ (j : String). Map.get j rows ≡ Map.get j existing)) v k)
                  settled.1 in
              one_more id item more r' p' a' (λ f. (hash, t, settled.0))
        ]

pub set_all-Agrees :
    (rows : List ItemRow) (id : String) (m n : Map String ItemRow)
    → Map.get id m ≡ Map.get id n
    → Map.get id (Map.set_all id_of rows m) ≡ Map.get id (Map.set_all id_of rows n)
unfolding Map.set_all
set_all-Agrees [] id m n h = h
set_all-Agrees (r ∷ rows) id m n h =
    set_all-Agrees rows id (Map.set r.identity r m) (Map.set r.identity r n)
      (rw (Map.get-set r.identity id r m, Map.get-set r.identity id r n) (ground (arith, h)))

module _ (digest : String → List ℕ) (poller : ResolvedPoller) (existing : Map String ItemRow)
    (now : ℕ) (touch : Bool) where
  -- The rows that a page leaves, once it is written.
  abbrev pub written_rows : List DiffCandidate → Map String ItemRow
  written_rows cs =
      Map.set_all id_of (diff_candidates poller existing now touch cs).upserts existing

  abbrev Named : (String → Type 0) → Map String ItemRow → List DiffCandidate → Type 0
  Named P rows cs = (id : String) → P id → Map.get id rows ≡ Map.get id (written_rows cs)

  All-Agrees : (cs : List DiffCandidate) → All (Agrees poller existing now touch existing) cs
  All-Agrees [] = tt
  All-Agrees (c ∷ cs) = (unfold Agrees in refl, All-Agrees cs)

  All-Settled_rows :
      (P : String → Type 0) (rows written : Map String ItemRow) (cs : List DiffCandidate)
      → ((id : String) → P id → Map.get id rows ≡ Map.get id written)
      → All (λ (c : DiffCandidate). P c.identity) cs
      → All (Settled poller written) cs
      → All (Settled poller rows) cs
  All-Settled_rows P rows written [] agree p h = tt
  All-Settled_rows P rows written (c ∷ cs) agree p ((row, e, s), h) =
      ((row, agree c.identity p.0 ∙ e, s), All-Settled_rows P rows written cs agree p.1 h)

  kept_rows :
      (P : String → Type 0) (rows : Map String ItemRow) (cs : List DiffCandidate)
      (ids : List String)
      → Named P rows cs
      → All P ids
      → All (λ id. Map.Absent candidate_id id cs) ids
      → All (λ id. Map.get id rows ≡ Map.get id existing) ids
  kept_rows P rows cs [] agree p h = tt
  kept_rows P rows cs (id ∷ ids) agree p h = (
    agree id p.0
        ∙ Map.get-set_all-Absent id_of _ id existing
            (upserts-Absent poller existing now touch id cs h.0),
    kept_rows P rows cs ids agree p.1 h.1,
  )

  -- A page that was prepared is prepared again over the rows that it left, as far as they are read,
  -- and then changes nothing.
  pub prepare_candidates_again :
      (P : String → Type 0) (items : List Value) (r : Prepared) (rows : Map String ItemRow)
      (later : ℕ)
      → prepare_candidates digest poller existing items ≡ ok r
      → All (λ item. (id : String) → identity_of poller item ≡ ok id → P id) items
      → Named P rows r.candidates
      → (s : Prepared) × (prepare_candidates digest poller rows items ≡ ok s)
        × ((diff_candidates poller rows later false s.candidates).changes ≡ [])
        × ((diff_candidates poller rows later false s.candidates).upserts ≡ [])
  unfolding prepare_candidates
  prepare_candidates_again P items r rows later h named agree =
      let (m, p, q) = chain-ok (latest poller items []) (prepare_loop digest poller existing) h in
      let d = Distinct-latest poller items [] m tt p in
      let reports =
        loop-All digest poller P existing m r q (latest-All P poller items [] m named tt p) in
      let (s, e, a) =
        loop_again digest poller rows existing m r q
          (kept_rows P rows r.candidates r.unchanged agree reports.1
            (loop-Apart digest poller existing m r q d))
          (All-Settled_rows P rows (written_rows r.candidates) r.candidates agree reports.0 (
            All-Settled poller existing now touch r.candidates existing
              (loop-Distinct digest poller existing m r q d) (All-Agrees r.candidates))) in
      let nothing = nothing_new poller rows later s.candidates a in
      (
        s,
        rw p e,
        ap (λ (x : DiffResult). x.changes) nothing,
        ap (λ (x : DiffResult). x.upserts) nothing,
      )
