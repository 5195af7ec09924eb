-- ===== src/Diff/Latest.antt =====
-- src/diff/diff.ts: of the items that share an identity, the last one of the page counts.
use watukuy.Base.{
  ℕ, String, Option, none, some, List, [], ◌∷◌, ◌==◌, string_eq, All, arith, ◌≡◌, refl, sym, ap,
  ◌∙◌, Bool-cases, inl, inr, ◌⊎◌, if◌then◌else◌, In, All-map, subst, map,
}
use watukuy.Base.Map
use watukuy.Base.Map.{Map}
use watukuy.Types.{ItemRow, ResolvedPoller, Value, Result, ok, err, ◌>>=◌, chain-ok}
use watukuy.Diff.{
  DiffCandidate, Prepared, identity_of, latest, prepare_loop, prepare_candidates, is_fast,
  version_of, fingerprint_of,
}

abbrev pub candidate_id : DiffCandidate → String
candidate_id c = c.identity

-- The last item of the page with this identity, and `before` if there is none.
pub last_item : ResolvedPoller → String → List Value → Option Value → Option Value
last_item poller id [] before = before
last_item poller id (item ∷ items) before =
    last_item poller id items (elim (identity_of poller item) [
      | ok i ↦ if i == id then some item else before
      | err _ ↦ before
    ])

get-latest :
    (poller : ResolvedPoller) (items : List Value) (m m' : Map String Value) (id : String)
    → latest poller items m ≡ ok m'
    → Map.get id m' ≡ last_item poller id items (Map.get id m)
unfolding latest last_item
get-latest poller [] m m' id h = ground (arith, h)
get-latest poller (item ∷ items) m m' id h =
    let (i, p, q) = chain-ok (identity_of poller item) _ h in
    rw p (
      get-latest poller items (Map.set i item m) m' id q
      ∙ ap (last_item poller id items) (Map.get-set i id item m))

pub Distinct-latest :
    (poller : ResolvedPoller) (items : List Value) (m m' : Map String Value)
    → Map.Distinct Map.key m
    → latest poller items m ≡ ok m'
    → Map.Distinct Map.key m'
unfolding latest
Distinct-latest poller [] m m' d h = subst (Map.Distinct Map.key) (cc h) d
Distinct-latest poller (item ∷ items) m m' d h =
    let (i, p, q) = chain-ok (identity_of poller item) _ h in
    Distinct-latest poller items (Map.set i item m) m' (Map.Distinct-set i item m d) q

abbrev Entry : Map String Value → DiffCandidate → Type 0
Entry m c = In {A = String × Value} (c.identity, c.item) m

-- What one round of the loop adds.
abbrev pub candidate_of : ResolvedPoller → String → Value → String → DiffCandidate
candidate_of poller id item hash = record {
  identity = id;
  item = item;
  version = version_of poller item;
  hash = hash;
}

module _ (digest : String → List ℕ) (poller : ResolvedPoller) (existing : Map String ItemRow) where
  Added : String → Value → Prepared → Prepared → Type 0
  Added id item r s =
      ((s.candidates ≡ r.candidates) × (s.unchanged ≡ id ∷ r.unchanged))
      ⊎ ((hash : String) × (s.candidates ≡ candidate_of poller id item hash ∷ r.candidates)
          × (s.unchanged ≡ r.unchanged))

  added :
      (id : String) (item : Value) (more : Map String Value) (s : Prepared)
      → prepare_loop digest poller existing ((id, item) ∷ more) ≡ ok s
      → (r : Prepared) × (prepare_loop digest poller existing more ≡ ok r) × Added id item r s
  unfolding prepare_loop Added
  added id item more s h =
      elim (Bool-cases (is_fast poller (version_of poller item) (Map.get id existing))) [
        | inl t ↦ fast (chain-ok _ _ (rw t at h))
        | inr t ↦ slow (chain-ok _ _ (rw t at h))
      ]
    where
      fast :
          (r : Prepared) × (prepare_loop digest poller existing more ≡ ok r)
            × (◌≡◌ {A = Result Prepared} (ok (record r { unchanged = id ∷ r.unchanged })) (ok s))
          → (r : Prepared) × (prepare_loop digest poller existing more ≡ ok r) × Added id item r s
      fast (r, p, q) = (r, p, inl (cc q, cc q))

      slow :
          (hash : String) × (fingerprint_of digest poller item ≡ ok hash)
            × ((prepare_loop digest poller existing more >>= λ r.
                  ok (record r { candidates = candidate_of poller id item hash ∷ r.candidates }))
                ≡ ok s)
          → (r : Prepared) × (prepare_loop digest poller existing more ≡ ok r) × Added id item r s
      slow (hash, p, q) = let (r, u, v) = chain-ok _ _ q in (r, u, inr (hash, cc v, cc v))

  empty_loop : (r : Prepared) → prepare_loop digest poller existing [] ≡ ok r → r.candidates ≡ []
  unfolding prepare_loop
  empty_loop r h = cc h

  loop-Absent :
      (m : Map String Value) (r : Prepared) (k : String)
      → prepare_loop digest poller existing m ≡ ok r
      → Map.Absent Map.key k m
      → Map.Absent candidate_id k r.candidates
  unfolding prepare_loop Added
  loop-Absent [] r k h a = rw (empty_loop r h) tt
  loop-Absent ((id, item) ∷ more) s k h a =
      let (r, p, q) = added id item more s h in
      let ih = loop-Absent more r k p a.1 in elim q [ inl u ↦ rw u.0 ih | inr u ↦ rw u.1 (a.0, ih) ]

  pub loop-Distinct :
      (m : Map String Value) (r : Prepared)
      → prepare_loop digest poller existing m ≡ ok r
      → Map.Distinct Map.key m
      → Map.Distinct candidate_id r.candidates
  unfolding prepare_loop Added
  loop-Distinct [] r h d = rw (empty_loop r h) tt
  loop-Distinct ((id, item) ∷ more) s h d =
      let (r, p, q) = added id item more s h in
      let ih = loop-Distinct more r p d.1 in
      elim q [ inl u ↦ rw u.0 ih | inr u ↦ rw u.1 (loop-Absent more r id p d.0, ih) ]

  loop-entries :
      (m : Map String Value) (r : Prepared)
      → prepare_loop digest poller existing m ≡ ok r
      → All (Entry m) r.candidates
  unfolding prepare_loop Added
  loop-entries [] r h = rw (empty_loop r h) tt
  loop-entries ((id, item) ∷ more) s h =
      let (r, p, q) = added id item more s h in
      let ih = All-map (λ c n. inr n) r.candidates (loop-entries more r p) in
      elim q [ inl u ↦ rw u.0 ih | inr u ↦ rw u.1 (inl refl, ih) ]

  abbrev pub Reported : Prepared → String → Type 0
  Reported r id = In id r.unchanged ⊎ In id (map candidate_id r.candidates)

  loop-covers :
      (m : Map String Value) (r : Prepared) (id : String) (item : Value)
      → prepare_loop digest poller existing m ≡ ok r
      → In (id, item) m
      → Reported r id
  unfolding prepare_loop Added
  loop-covers [] r id item h n = absurd n
  loop-covers ((j, x) ∷ more) s id item h n =
      let (r, p, q) = added j x more s h in go r q n (loop-covers more r id item p)
    where
      go :
          (r : Prepared)
          → Added j x r s
          → In (id, item) ((j, x) ∷ more)
          → (In (id, item) more → Reported r id)
          → Reported s id
      go r (inl u) (inl e) ih = inl (rw u.1 (inl (cc e)))
      go r (inl u) (inr k) ih = elim (ih k) [
        | inl v ↦ inl (rw u.1 (inr v))
        | inr v ↦ inr (rw u.0 v)
      ]
      go r (inr u) (inl e) ih = inr (rw u.1 (inl (cc e)))
      go r (inr u) (inr k) ih = elim (ih k) [
        | inl v ↦ inl (rw u.2 v)
        | inr v ↦ inr (rw u.1 (inr v))
      ]

  -- Where a page can be prepared, its candidates have different identities; each holds the last item
  -- of the page with its identity; and the identity of every item is a candidate's or unchanged.
  pub prepare_candidates_lem :
      (items : List Value) (r : Prepared)
      → prepare_candidates digest poller existing items ≡ ok r
      → Map.Distinct candidate_id r.candidates
        × All (λ c. last_item poller c.identity items none ≡ some c.item) r.candidates
        × ((id : String) (item : Value)
            → last_item poller id items none ≡ some item
            → Reported r id)
  unfolding prepare_candidates Map.get
  prepare_candidates_lem items r h =
      let (m, p, q) = chain-ok (latest poller items []) (prepare_loop digest poller existing) h in
      let d = Distinct-latest poller items [] m tt p in
      (
        loop-Distinct m r q d,
        All-map
            (λ c n.
              sym (get-latest poller items [] m c.identity p)
              ∙ Map.get-entry m (c.identity, c.item) d n)
            r.candidates (loop-entries m r q),
        λ id item l.
            loop-covers m r id item q
              (Map.entry-get m id item (get-latest poller items [] m id p ∙ l)),
      )
