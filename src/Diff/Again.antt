-- ===== src/Diff/Again.antt =====
-- src/diff/diff.ts: once the rows of a page are stored, the same page changes nothing.
use watukuy.Base.{
  ℕ, String, Bool, true, false, Option, none, some, List, [], ◌∷◌, string_eq, All, arith, ◌≡◌, refl,
  sym, ◌∙◌, inl, inr, ◌⊎◌, map, ==-refl, subst,
}
use watukuy.Base.Map
use watukuy.Base.Map.{Map}
use watukuy.Types.{ItemRow, ResolvedPoller}
use watukuy.Diff.{DiffCandidate, DiffResult, row_for, diff_one, diff_candidates, same_version}

-- The stored row agrees with the candidate.
abbrev pub Settles : ResolvedPoller → DiffCandidate → ItemRow → Type 0
Settles poller c row =
    (row.hash ≡ c.hash) × (row.version ≡ c.version) × (row.schema_version ≡ poller.schema_version)

abbrev pub Settled : ResolvedPoller → Map String ItemRow → DiffCandidate → Type 0
Settled poller rows c =
    (row : ItemRow) × (Map.get c.identity rows ≡ some row) × Settles poller c row

abbrev pub id_of : ItemRow → String
id_of row = row.identity

abbrev candidate_id : DiffCandidate → String
candidate_id c = c.identity

same_version_lem : (a b : Option String) → same_version a b ≡ true → a ≡ b
same_version_lem none none h = refl
same_version_lem none (some b) h = absurd (cc h)
same_version_lem (some a) none h = absurd (cc h)
same_version_lem (some a) (some b) h = ground (arith, string_eq.same_iff a b)

same_version_refl : (a : Option String) → same_version a a ≡ true
same_version_refl none = refl
same_version_refl (some a) = ==-refl a

row_for-Settles :
    (poller : ResolvedPoller) (c : DiffCandidate) (now : ℕ)
    → Settles poller c (row_for poller c now)
unfolding row_for
row_for-Settles poller c now = (refl, refl, refl)

module _ (poller : ResolvedPoller) (existing : Map String ItemRow) (now : ℕ) (touch : Bool) where
  -- Either the row of the candidate is written, or it is stored already.
  Round : DiffCandidate → Option ItemRow → DiffResult → Type 0
  Round c o r =
      ((diff_one poller existing now touch c o r).upserts ≡ row_for poller c now ∷ r.upserts)
      ⊎ ((row : ItemRow) × (o ≡ some row)
          × Settles poller c row
          × ((diff_one poller existing now touch c o r).upserts ≡ r.upserts))

  round_some :
      (c : DiffCandidate) (row : ItemRow) (r : DiffResult)
      → ((diff_one poller existing now touch c (some row) r).upserts
          ≡ row_for poller c now ∷ r.upserts)
        ⊎ (Settles poller c row
            × ((diff_one poller existing now touch c (some row) r).upserts ≡ r.upserts))
  unfolding diff_one
  round_some c row r =
      ground (arith, string_eq.same_iff row.hash c.hash, same_version_lem row.version c.version)

  round : (c : DiffCandidate) (o : Option ItemRow) (r : DiffResult) → Round c o r
  unfolding diff_one Round
  round c none r = inl refl
  round c (some row) r = elim (round_some c row r) [
    | inl h ↦ inl h
    | inr h ↦ inr (row, refl, h.0, h.1)
  ]

  pub upserts-Absent :
      (k : String) (cs : List DiffCandidate)
      → Map.Absent candidate_id k cs
      → Map.Absent id_of k (diff_candidates poller existing now touch cs).upserts
  unfolding diff_candidates row_for Round
  upserts-Absent k [] h = tt
  upserts-Absent k (c ∷ cs) h =
      let r = diff_candidates poller existing now touch cs in
      elim (round c (Map.get c.identity existing) r) [
        | inl w ↦ rw w (h.0, upserts-Absent k cs h.1)
        | inr (row, p, q, w) ↦ rw w (upserts-Absent k cs h.1)
      ]

  unfoldable pub Agrees : Map String ItemRow → DiffCandidate → Type 0
  Agrees m c = Map.get c.identity m ≡ Map.get c.identity existing

  set-Agrees :
      (k : String) (row : ItemRow) (m : Map String ItemRow) (cs : List DiffCandidate)
      → Map.Absent candidate_id k cs
      → All (Agrees m) cs
      → All (Agrees (Map.set k row m)) cs
  unfolding Agrees
  set-Agrees k row m [] a h = tt
  set-Agrees k row m (c ∷ cs) a h = (
    rw (Map.get-set k c.identity row m) (ground (arith, string_eq.same_iff k c.identity, a.0, h.0)),
    set-Agrees k row m cs a.1 h.1,
  )

  pub All-Settled :
      (cs : List DiffCandidate) (m : Map String ItemRow)
      → Map.Distinct candidate_id cs
      → All (Agrees m) cs
      → All
          (Settled poller
            (Map.set_all id_of (diff_candidates poller existing now touch cs).upserts m))
          cs
  unfolding diff_candidates Agrees Round Map.set_all row_for
  All-Settled [] m d h = tt
  All-Settled (c ∷ cs) m d h =
      let r = diff_candidates poller existing now touch cs in
      elim (round c (Map.get c.identity existing) r) [
        | inl w ↦ put w (
          written,
          All-Settled cs (Map.set c.identity (row_for poller c now) m) d.1
              (set-Agrees c.identity (row_for poller c now) m cs d.0 h.1),
        )
        | inr (row, p, q, w) ↦ put w (stored row p q, All-Settled cs m d.1 h.1)
      ]
    where
      put :
          {ups : List ItemRow}
          → (diff_one poller existing now touch c
              (Map.get c.identity existing)
              (diff_candidates poller existing now touch cs)).upserts
            ≡ ups
          → All (Settled poller (Map.set_all id_of ups m)) (c ∷ cs)
          → All
              (Settled poller
                (Map.set_all id_of (diff_candidates poller existing now touch (c ∷ cs)).upserts m))
              (c ∷ cs)
      put w = subst (λ u. All (Settled poller (Map.set_all id_of u m)) (c ∷ cs)) (sym w)

      written :
          Settled poller
            (Map.set_all id_of
              (row_for poller c now ∷ (diff_candidates poller existing now touch cs).upserts)
              m)
            c
      written = (
        row_for poller c now,
        Map.get-set_all-Absent id_of _ c.identity _ (upserts-Absent c.identity cs d.0)
            ∙ Map.get-set_self c.identity (row_for poller c now) m,
        row_for-Settles poller c now,
      )

      stored :
          (row : ItemRow)
          → Map.get c.identity existing ≡ some row
          → Settles poller c row
          → Settled poller
              (Map.set_all id_of (diff_candidates poller existing now touch cs).upserts m)
              c
      stored row p s = (
        row,
        Map.get-set_all-Absent id_of _ c.identity m (upserts-Absent c.identity cs d.0) ∙ h.0 ∙ p,
        s,
      )

pub nothing_new :
    (poller : ResolvedPoller) (rows : Map String ItemRow) (now : ℕ) (cs : List DiffCandidate)
    → All (Settled poller rows) cs
    → diff_candidates poller rows now false cs
      ≡ record { changes = []; upserts = []; unchanged = map candidate_id cs; rebaselined = [] }
unfolding diff_candidates diff_one
nothing_new poller rows now [] h = refl
nothing_new poller rows now (c ∷ cs) h = rw (nothing_new poller rows now cs h.1) (one h.0)
  where
    one :
        Settled poller rows c
        → diff_one poller rows now false c (Map.get c.identity rows) (record {
          changes = [];
          upserts = [];
          unchanged = map candidate_id cs;
          rebaselined = [];
        })
          ≡ record {
            changes = [];
            upserts = [];
            unchanged = map candidate_id (c ∷ cs);
            rebaselined = [];
          }
    one (row, p, q) =
        rw p (ground (arith, q, same_version_refl row.version, string_eq.same_iff row.hash c.hash))

-- Once the upserts of a diff are stored, the same candidates give no event and no write: each is
-- reported as unchanged, in its place. The candidates have different identities.
pub diff_candidates_again :
    (poller : ResolvedPoller) (existing : Map String ItemRow) (now later : ℕ) (touch : Bool)
    (cs : List DiffCandidate)
    → Map.Distinct candidate_id cs
    → diff_candidates poller
        (Map.set_all id_of (diff_candidates poller existing now touch cs).upserts existing)
        later
        false
        cs
      ≡ record { changes = []; upserts = []; unchanged = map candidate_id cs; rebaselined = [] }
unfolding Agrees
diff_candidates_again poller existing now later touch cs d =
    nothing_new poller _ later cs (All-Settled poller existing now touch cs existing d (agrees cs))
  where
    agrees : (ds : List DiffCandidate) → All (Agrees poller existing now touch existing) ds
    agrees [] = tt
    agrees (e ∷ ds) = (refl, agrees ds)
