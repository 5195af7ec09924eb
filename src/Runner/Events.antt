-- ===== src/Runner/Events.antt =====
-- src/core/runner.ts: the events of a page are numbered without a gap, counted right, and filed under
-- their ids.
use watukuy.Base.{
  ℕ, ◌+◌, Bool, true, false, Option, none, some, String, List, [], ◌∷◌, map, ◌≡◌, refl, ap, subst,
  arith, All, All-append, length, inl, inr, Bool-cases, elem, string_eq,
}
use watukuy.Base.Map
use watukuy.Base.Map.{Map}
use watukuy.Types.{
  Value, Lane, EventType, OutboxRow, ItemRow, ParkedRow, ResolvedPoller, ok, chain-ok, pkey_eq,
  created, updated, deleted,
}
use watukuy.Diff.{Change, DiffCandidate, DiffResult, diff_one, diff_candidates, prepare_candidates}
use watukuy.Store.{MemoryStore}
use watukuy.Validate.{validate_items}
use watukuy.Diff.Canonicalize.{is_undefined}
use watukuy.Runner.Page.{
  PageDeps, PageCommit, Subject, build_event_row, number_events, change_subject, forced_subject,
  forced_subjects, subjects, is_created, is_updated, count_type, page_commit, diff_page, page_rows,
  handle_invalid, process_page,
}

-- The numbers that follow `n`, as many as there are elements.
abbrev pub numbers {ℓ} : {A : Type ℓ} → ℕ → List A → List ℕ
numbers n [] = []
numbers n (x ∷ xs) = (n + 1) ∷ numbers (n + 1) xs

-- A row that is new in the outbox, filed under its event and numbered like it.
abbrev pub IsNew : OutboxRow → Type 0
IsNew r = (r.event.id ≡ r.event_id) × (r.event.sequence ≡ r.sequence) × (r.attempts ≡ 0)

abbrev as_created : EventType → ℕ
as_created created = 1
as_created updated = 0
as_created deleted = 0

abbrev as_updated : EventType → ℕ
as_updated created = 0
as_updated updated = 1
as_updated deleted = 0

-- How many of the events are of a type.
abbrev pub tally : (EventType → ℕ) → List OutboxRow → ℕ
tally one [] = 0
tally one (r ∷ rows) = one r.event.type + tally one rows

abbrev IsChange : EventType → Type 0
IsChange type = is_created type + is_updated type ≡ 1

module _ (deps : PageDeps) (lane : Lane) (now : ℕ) (cursor : String) where
  pub number_events_lem :
      (n : ℕ) (about : List Subject)
      → let rows = number_events deps lane now cursor n about in
        (map (λ (r : OutboxRow). r.sequence) rows ≡ numbers n rows)
        × All IsNew rows
        × (length rows ≡ length about)
  unfolding number_events build_event_row
  number_events_lem n [] = (refl, tt, refl)
  number_events_lem n (s ∷ about) =
      let (p, q, r) = number_events_lem (n + 1) about in
      (ap (◌∷◌ (n + 1)) p, ((refl, refl, refl), q), omega (arith, r))

  -- The types of the events are those of what they are about.
  number_events-tally :
      (one other : EventType → ℕ) (n : ℕ) (about : List Subject)
      → ((type : EventType) → one type ≡ other type)
      → tally other (number_events deps lane now cursor n about) ≡ count_type one about
  unfolding number_events build_event_row
  number_events-tally one other n [] h = refl
  number_events-tally one other n (s ∷ about) h =
      omega (arith, h s.type, number_events-tally one other (n + 1) about h)

is_created_lem : (type : EventType) → is_created type ≡ as_created type
is_created_lem created = refl
is_created_lem updated = refl
is_created_lem deleted = refl

is_updated_lem : (type : EventType) → is_updated type ≡ as_updated type
is_updated_lem created = refl
is_updated_lem updated = refl
is_updated_lem deleted = refl

count_changes :
    (about : List Subject)
    → All (λ (s : Subject). IsChange s.type) about
    → count_type is_created about + count_type is_updated about ≡ length about
count_changes [] h = refl
count_changes (s ∷ about) h = omega (arith, h.0, count_changes about h.1)

module _ (poller : ResolvedPoller) (existing : Map String ItemRow) (now : ℕ) (touch : Bool) where
  diff_one-IsChange :
      (c : DiffCandidate) (o : Option ItemRow) (r : DiffResult)
      → All (λ (ch : Change). IsChange ch.type) r.changes
      → All (λ (ch : Change). IsChange ch.type) (diff_one poller existing now touch c o r).changes
  unfolding diff_one
  diff_one-IsChange c none r h = (omega arith, h)
  diff_one-IsChange c (some row) r h = ground (arith, h)

  diff_candidates-IsChange :
      (cs : List DiffCandidate)
      → All
          (λ (ch : Change). IsChange ch.type)
          (diff_candidates poller existing now touch cs).changes
  unfolding diff_candidates
  diff_candidates-IsChange [] = tt
  diff_candidates-IsChange (c ∷ cs) = diff_one-IsChange c _ _ (diff_candidates-IsChange cs)

change_subjects-IsChange :
    (cs : List Change)
    → All (λ (ch : Change). IsChange ch.type) cs
    → All (λ (s : Subject). IsChange s.type) (map change_subject cs)
unfolding change_subject
change_subjects-IsChange [] h = tt
change_subjects-IsChange (c ∷ cs) h = (h.0, change_subjects-IsChange cs h.1)

forced_subject-IsChange :
    (poller : ResolvedPoller) (id : String) (item : Option Value) (row : Option ItemRow)
    → All (λ (s : Subject). IsChange s.type) (forced_subject poller id item row)
forced_subject-IsChange poller id none row = tt
forced_subject-IsChange poller id (some item) none = tt
forced_subject-IsChange poller id (some item) (some row) = elim (Bool-cases (is_undefined item)) [
  | inl t ↦ rw t tt
  | inr f ↦ rw f (omega arith, tt)
]

forced_subjects-IsChange :
    (poller : ResolvedPoller) (changed : List String) (items : Map String Value)
    (existing : Map String ItemRow) (ids : List String)
    → All (λ (s : Subject). IsChange s.type) (forced_subjects poller changed items existing ids)
unfolding forced_subjects
forced_subjects-IsChange poller changed items existing [] = tt
forced_subjects-IsChange poller changed items existing (id ∷ ids) =
    let rest = forced_subjects-IsChange poller changed items existing ids in
    elim (Bool-cases (elem id changed)) [
      | inl t ↦ rw t rest
      | inr f ↦ rw f (
          All-append _ (forced_subject poller id (Map.get id items) (Map.get id existing)) _
            (forced_subject-IsChange poller id (Map.get id items) (Map.get id existing)) rest)
    ]

subjects-IsChange :
    (deps : PageDeps) (force : Bool) (items : List Value) (existing : Map String ItemRow) (now : ℕ)
    (full : Bool) (cs : List DiffCandidate)
    → All
        (λ (s : Subject). IsChange s.type)
        (subjects deps force items existing (diff_candidates deps.poller existing now full cs))
subjects-IsChange deps false items existing now full cs =
    All-append _ (map change_subject (diff_candidates deps.poller existing now full cs).changes) []
      (change_subjects-IsChange _ (diff_candidates-IsChange deps.poller existing now full cs)) tt
subjects-IsChange deps true items existing now full cs =
    All-append _ (map change_subject (diff_candidates deps.poller existing now full cs).changes) _
      (change_subjects-IsChange _ (diff_candidates-IsChange deps.poller existing now full cs))
      (forced_subjects-IsChange deps.poller _ _ existing _)

-- What a page that is processed promises of its events.
abbrev pub IsNumbered : ℕ → PageCommit → Type 0
IsNumbered sequence commit =
    (map (λ (r : OutboxRow). r.sequence) commit.events ≡ numbers sequence commit.events)
    × (commit.sequence ≡ sequence + length commit.events)
    × (commit.created_count ≡ tally as_created commit.events)
    × (commit.updated_count ≡ tally as_updated commit.events)
    × (commit.created_count + commit.updated_count ≡ length commit.events)
    × All IsNew commit.events

page_commit-IsNumbered :
    (deps : PageDeps) (lane : Lane) (now : ℕ) (cursor : String) (sequence : ℕ)
    (parked : List ParkedRow) (upserts : List ItemRow) (about : List Subject)
    → All (λ (s : Subject). IsChange s.type) about
    → IsNumbered sequence (page_commit deps lane now cursor sequence parked upserts about)
unfolding page_commit
page_commit-IsNumbered deps lane now cursor sequence parked upserts about h =
    let (p, q, r) = number_events_lem deps lane now cursor sequence about in
    (
      p,
      omega (arith, r),
      omega (
        arith,
        number_events-tally deps lane now cursor is_created as_created sequence about
            is_created_lem,
      ),
      omega (
        arith,
        number_events-tally deps lane now cursor is_updated as_updated sequence about
            is_updated_lem,
      ),
      omega (arith, r, count_changes about h),
      q,
    )

-- The events of a page follow on from the sequence number of the poller without a gap, forced ones
-- included; the sequence ends at the last of them; those that create and those that update are counted
-- apart, and there are no others; and each is filed under the id of its event, not yet attempted.
pub process_page_lem :
    (deps : PageDeps) (s : MemoryStore) (lane : Lane) (now : ℕ) (raw : List Value) (sequence : ℕ)
    (full force : Bool) (cursor : String) (commit : PageCommit)
    → process_page deps s lane now raw sequence full force cursor ≡ ok commit
    → IsNumbered sequence commit
unfolding process_page diff_page
process_page_lem deps s lane now raw sequence full force cursor commit h =
    let page = validate_items deps.schema raw in
    let existing = page_rows deps s page.valid in
    let (parked, p, rest) = chain-ok (handle_invalid deps now page.invalid) _ h in
    let (prepared, q, done) =
      chain-ok (prepare_candidates deps.digest deps.poller existing page.valid) _ rest in
    subst (IsNumbered sequence) (value_of done) (
      page_commit-IsNumbered deps lane now cursor sequence parked
        (diff_candidates deps.poller existing now full prepared.candidates).upserts _
        (subjects-IsChange deps force page.valid existing now full prepared.candidates))
  where
    value_of : {c : PageCommit} → ok c ≡ ok commit → c ≡ commit
    value_of e = cc e
