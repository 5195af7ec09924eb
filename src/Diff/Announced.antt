-- ===== src/Diff/Announced.antt =====
-- src/diff/diff.ts: which candidates become events, which are unchanged and which rebaselined.
use watukuy.Base.{
  ℕ, ◌+◌, String, Bool, true, false, not, ◌||◌, ◌&&◌, Option, none, some, List, [], ◌∷◌, ◌==◌,
  string_eq, arith, ◌≡◌, refl, ◌∙◌, filter, map, length, nat_eqb, if◌then◌else◌,
}
use watukuy.Base.Map
use watukuy.Base.Map.{Map}
use watukuy.Types.{ItemRow, ResolvedPoller, EventType, created, updated, rebaseline, emit}
use watukuy.Diff.{DiffCandidate, DiffResult, Change, diff_one, diff_candidates}

-- An event is due for an item that is new, and for one whose hash differs from the stored one, except
-- that a row of another schema version is silent under `rebaseline`.
abbrev pub announces : ResolvedPoller → DiffCandidate → Option ItemRow → Bool
announces poller c none = true
announces poller c (some row) =
    not (row.hash == c.hash)
    && (nat_eqb row.schema_version poller.schema_version
        || (elim poller.on_schema_change [ rebaseline ↦ false | emit ↦ true ]))

-- Nothing differs: neither the hash nor the schema version.
abbrev pub is_same : ResolvedPoller → DiffCandidate → Option ItemRow → Bool
is_same poller c none = false
is_same poller c (some row) = row.hash == c.hash && nat_eqb row.schema_version poller.schema_version

abbrev pub is_silent : ResolvedPoller → DiffCandidate → Option ItemRow → Bool
is_silent poller c o = not (announces poller c o) && not (is_same poller c o)

abbrev pub kind : Option ItemRow → EventType
kind none = created
kind (some _) = updated

module _ (poller : ResolvedPoller) (existing : Map String ItemRow) (now : ℕ) (touch : Bool) where
  abbrev pub brief : Change → String × EventType
  brief ch = (ch.identity, ch.type)

  abbrev pub stored : DiffCandidate → Option ItemRow
  stored c = Map.get c.identity existing

  diff_one-brief :
      (c : DiffCandidate) (o : Option ItemRow) (r : DiffResult)
      → map brief (diff_one poller existing now touch c o r).changes ≡ (
          if announces poller c o
          then (c.identity, kind o) ∷ map brief r.changes
          else map brief r.changes)
  unfolding diff_one
  diff_one-brief c none r = refl
  diff_one-brief c (some row) r = ground (arith)

  diff_one-unchanged :
      (c : DiffCandidate) (o : Option ItemRow) (r : DiffResult)
      → (diff_one poller existing now touch c o r).unchanged
        ≡ (if is_same poller c o then c.identity ∷ r.unchanged else r.unchanged)
  unfolding diff_one
  diff_one-unchanged c none r = refl
  diff_one-unchanged c (some row) r = ground (arith, poller.on_schema_change)

  diff_one-rebaselined :
      (c : DiffCandidate) (o : Option ItemRow) (r : DiffResult)
      → (diff_one poller existing now touch c o r).rebaselined
        ≡ (if is_silent poller c o then c.identity ∷ r.rebaselined else r.rebaselined)
  unfolding diff_one
  diff_one-rebaselined c none r = refl
  diff_one-rebaselined c (some row) r = ground (arith, poller.on_schema_change)

  abbrev pub identities : List DiffCandidate → List String
  identities cs = map (λ (c : DiffCandidate). c.identity) cs

  abbrev pub reports : DiffResult → ℕ
  reports r = length r.changes + length r.unchanged + length r.rebaselined

  diff_one-reports :
      (c : DiffCandidate) (o : Option ItemRow) (r : DiffResult)
      → reports (diff_one poller existing now touch c o r) ≡ reports r + 1
  unfolding diff_one
  diff_one-reports c none r = omega arith
  diff_one-reports c (some row) r = ground arith

  -- The changes are those of the candidates for which an event is due, in their order, `created`
  -- where no row is stored; unchanged are those whose hash and schema version are the stored ones,
  -- rebaselined all others, each in their order; so each candidate is reported once.
  pub diff_candidates_lem :
      (cs : List DiffCandidate)
      → (map brief (diff_candidates poller existing now touch cs).changes
          ≡ map
              (λ c. (c.identity, kind (stored c)))
              (filter (λ c. announces poller c (stored c)) cs))
        × ((diff_candidates poller existing now touch cs).unchanged
            ≡ identities (filter (λ c. is_same poller c (stored c)) cs))
        × ((diff_candidates poller existing now touch cs).rebaselined
            ≡ identities (filter (λ c. is_silent poller c (stored c)) cs))
        × (reports (diff_candidates poller existing now touch cs) ≡ length cs)
  unfolding diff_candidates
  diff_candidates_lem [] = (refl, refl, refl, refl)
  diff_candidates_lem (c ∷ cs) =
      let (p, u, b, q) = diff_candidates_lem cs in
      let r = diff_candidates poller existing now touch cs in
      (
        diff_one-brief c (stored c) r ∙ ground (arith, p),
        diff_one-unchanged c (stored c) r ∙ ground (arith, u),
        diff_one-rebaselined c (stored c) r ∙ ground (arith, b),
        diff_one-reports c (stored c) r ∙ omega (arith, q),
      )
