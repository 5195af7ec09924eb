-- ===== src/Dispatcher/Groups.antt =====
-- src/core/dispatcher.ts: `groupByOrderingKey` splits a slice of the outbox by ordering key.
use watukuy.Base.{
  none, some, String, List, [], ◌∷◌, ◌++◌, ◌≡◌, ◌⊎◌, refl, sym, ◌∙◌, ap, subst, arith, All, Some,
  In, filter, In-filter, All-map, All-filter, inl, inr, Option-cases, or_else, ◌==◌, string_eq,
  ==-refl, if◌then◌else◌, Bool-cases,
}
use watukuy.Base.Map
use watukuy.Base.Map.{Map, get-set, get-entry, entry-get, Distinct-set}
use mathlib.Core.List.{append_assoc, append-nil}
use watukuy.Types.{ResolvedPoller, OutboxRow}
use watukuy.Dispatcher.{Group, ordering_key, push_row, group_rows, groups_of, group_by_ordering_key}

abbrev Groups : Type 0
Groups = Map String (List OutboxRow)

-- The rows under a key
abbrev under : String → Groups → List OutboxRow
under k m = or_else (Map.get k m) []

module _ (poller : ResolvedPoller) where
  abbrev pub of_key : String → List OutboxRow → List OutboxRow
  of_key k rows = filter (λ (r : OutboxRow). ordering_key poller r == k) rows

  push_row-under :
      (j k : String) (row : OutboxRow) (m : Groups)
      → under k (push_row j row m) ≡ (if j == k then under k m ++ row ∷ [] else under k m)
  unfolding push_row
  push_row-under j k row m =
      rw get-set (ground (arith, string_eq.same_iff j k, λ (e : j ≡ k). ap (λ i. under i m) e))

  group_rows-under :
      (rows : List OutboxRow) (k : String) (m : Groups)
      → under k (group_rows poller rows m) ≡ under k m ++ of_key k rows
  unfolding group_rows
  group_rows-under [] k m = simp append-nil
  group_rows-under (row ∷ rows) k m =
      rw (group_rows-under rows k (push_row (ordering_key poller row) row m), push_row-under)
        (elim (Bool-cases (ordering_key poller row == k)) [
          | inl t ↦ rw t (simp append_assoc)
          | inr f ↦ rw f refl
        ])

  group_rows-Distinct :
      (rows : List OutboxRow) (m : Groups)
      → Map.Distinct Map.key m
      → Map.Distinct Map.key (group_rows poller rows m)
  unfolding group_rows push_row
  group_rows-Distinct [] m d = d
  group_rows-Distinct (row ∷ rows) m d =
      group_rows-Distinct rows _ (Distinct-set (ordering_key poller row) _ m d)

  groups_of-All :
      (P : String → List OutboxRow → Type 0) (m : Groups)
      → ((p : String × List OutboxRow) → In p m → P p.0 p.1)
      → All (λ (g : Group). P g.key g.rows) (groups_of m)
  unfolding groups_of
  groups_of-All P [] h = tt
  groups_of-All P ((k, rows) ∷ m) h =
      (h (k, rows) (inl refl), groups_of-All P m (λ p i. h p (inr i)))

  abbrev pub group_key : Group → String
  group_key g = g.key

  groups_of-Distinct : (m : Groups) → Map.Distinct Map.key m → Map.Distinct group_key (groups_of m)
  unfolding groups_of
  groups_of-Distinct [] d = tt
  groups_of-Distinct ((k, rows) ∷ m) d = (absent m d.0, groups_of-Distinct m d.1)
    where
      absent : (n : Groups) → Map.Absent Map.key k n → Map.Absent group_key k (groups_of n)
      absent [] a = tt
      absent ((j, more) ∷ n) a = (a.0, absent n a.1)

  groups_of-Some :
      (m : Groups) (k : String) (rows : List OutboxRow)
      → In (k, rows) m
      → Some (λ (g : Group). g.key ≡ k) (groups_of m)
  unfolding groups_of
  groups_of-Some [] k rows i = absurd i
  groups_of-Some ((j, more) ∷ m) k rows (inl e) = inl (ap (λ p. p.0) e)
  groups_of-Some ((j, more) ∷ m) k rows (inr i) = inr (groups_of-Some m k rows i)

  -- Each group holds exactly the rows of its key, in the order of the slice; no two groups have one
  -- key, and no row is left out.
  pub group_by_ordering_key_lem :
      (rows : List OutboxRow)
      → let groups = group_by_ordering_key poller rows in
        All (λ (g : Group). g.rows ≡ of_key g.key rows) groups
        × Map.Distinct group_key groups
        × ((r : OutboxRow) → In r rows → Some (λ (g : Group). g.key ≡ ordering_key poller r) groups)
  unfolding group_by_ordering_key Map.get
  group_by_ordering_key_lem rows =
      let m = group_rows poller rows [] in
      let d = group_rows-Distinct rows [] tt in
      (
        groups_of-All (λ k rs. rs ≡ of_key k rows) m
            (λ p i.
              sym (ap (λ o. or_else o []) (get-entry m p d i)) ∙ group_rows-under rows p.0 []),
        groups_of-Distinct m d,
        λ r i. found r i (Option-cases (Map.get (ordering_key poller r) m)),
      )
    where
      found :
          (r : OutboxRow)
          → In r rows
          → (Map.get (ordering_key poller r) (group_rows poller rows []) ≡ none)
            ⊎ ((rs : List OutboxRow) × (Map.get (ordering_key poller r) (group_rows poller rows [])
                  ≡ some rs))
          → Some
              (λ (g : Group). g.key ≡ ordering_key poller r)
              (groups_of (group_rows poller rows []))
      found r i (inl n) =
          let k = ordering_key poller r in
          absurd (
            subst (In r) (sym (group_rows-under rows k []) ∙ ap (λ o. or_else o []) n)
              (In-filter (λ (s : OutboxRow). ordering_key poller s == k) rows r (==-refl k) i))
      found r i (inr (rs, e)) = groups_of-Some _ (ordering_key poller r) rs (entry-get _ _ rs e)

  -- What holds of each row of the slice holds of each row of a group.
  pub group_by_ordering_key-All :
      (P : OutboxRow → Type 0) (rows : List OutboxRow)
      → All P rows
      → All (λ (g : Group). All P g.rows) (group_by_ordering_key poller rows)
  group_by_ordering_key-All P rows h =
      All-map
        (λ (g : Group) e.
          subst (All P) (sym e) (All-filter P (λ r. ordering_key poller r == g.key) rows h))
        (group_by_ordering_key poller rows) (group_by_ordering_key_lem rows).0
