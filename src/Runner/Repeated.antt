-- ===== src/Runner/Repeated.antt =====
-- src/core/runner.ts: a page that was committed is processed again.
use watukuy.Base.{
  ℕ, String, Bool, true, false, List, [], ◌∷◌, elem, string_eq, All, All-map, arith, ◌≡◌, refl, sym,
  ap, ◌∙◌, map,
}
use watukuy.Base.Map
use watukuy.Base.Map.{Map}
use watukuy.Types.{
  ok_inj, Value, string, ItemRow, Lane, LaneCursor, ResolvedPoller, ok, err, chain-ok, ParkedRow,
  OnInvalid, fail, quarantine, skip, validation,
}
use watukuy.Validate.{InvalidItem, join_messages, validate_items}
use watukuy.Diff.{Prepared, identity_of, prepare_candidates, diff_candidates}
use watukuy.Diff.Again.{id_of}
use watukuy.Diff.Repeated.{prepare_candidates_again, set_all-Agrees}
use watukuy.Store.{MemoryStore, record_of, commit_poll}
use watukuy.Store.Rows.{KeyRecord, holds, apply_batch}
use watukuy.Store.Queries.Reads.{load_versions_lem}
use watukuy.Runner.Cycle.{Strategy, Api, CycleDeps, Cycle, now_of}
use watukuy.Runner.Pages.{page_batch, committed, commit_page}
use watukuy.Runner.Filed.{written-store}
use watukuy.Runner.Deletes.{committed_record}
use watukuy.Runner.Page.{
  PageDeps, PageCommit, process_page, page_rows, strings_of, handle_invalid, diff_page, page_commit,
  number_events, parked_invalid,
}

abbrev pub HasStringId : ResolvedPoller → Value → Type 0
HasStringId poller item = (id : String) × (poller.identity item ≡ string id)

-- The identities of a page of which each is a string.
strings_of-Named :
    (poller : ResolvedPoller) (items : List Value)
    → All (HasStringId poller) items
    → All
        (λ item.
          (id : String)
          → identity_of poller item ≡ ok id
          → elem id (strings_of (map poller.identity items)) ≡ true)
        items
unfolding strings_of identity_of elem
strings_of-Named poller [] h = tt
strings_of-Named poller (item ∷ items) ((i, e), h) = (
  λ id p. rw e (ground (arith, rw (identity_of, e) at p, string_eq.same_iff i id)),
  All-map (λ other f id p. rw e (ground (arith, f id p))) items (strings_of-Named poller items h),
)

abbrev pub parked_id : ParkedRow → String
parked_id row = row.id

-- The id under which an invalid item is parked is that of its text.
parked_ids :
    (deps : PageDeps) (now later : ℕ) (invs : List InvalidItem)
    → map parked_id (map (parked_invalid deps later) invs)
      ≡ map parked_id (map (parked_invalid deps now) invs)
unfolding parked_invalid
parked_ids deps now later [] = refl
parked_ids deps now later (inv ∷ invs) =
    ap (◌∷◌ (parked_id (parked_invalid deps now inv))) (parked_ids deps now later invs)

handle_invalid-again :
    (deps : PageDeps) (now later : ℕ) (invs : List InvalidItem) (parked : List ParkedRow)
    → handle_invalid deps now invs ≡ ok parked
    → (parked' : List ParkedRow) × (handle_invalid deps later invs ≡ ok parked')
      × (map parked_id parked' ≡ map parked_id parked)
unfolding handle_invalid
handle_invalid-again deps now later [] parked h = ([], refl, ap (map parked_id) (ok_inj h))
handle_invalid-again deps now later (inv ∷ invs) parked h =
    elim deps.poller.on_invalid
        as (λ (o : OnInvalid).
          (elim o [
            | fail ↦ err (validation (join_messages inv.issues))
            | quarantine ↦ ok (map (parked_invalid deps now) (inv ∷ invs))
            | skip ↦ ok []
          ])
            ≡ ok parked
          → (parked' : List ParkedRow) × ((elim o [
            | fail ↦ err (validation (join_messages inv.issues))
            | quarantine ↦ ok (map (parked_invalid deps later) (inv ∷ invs))
            | skip ↦ ok []
          ])
              ≡ ok parked')
            × (map parked_id parked' ≡ map parked_id parked)) [
              | fail ↦ λ e. absurd (cc e)
              | quarantine ↦ λ e.
                  (_, refl, parked_ids deps now later (inv ∷ invs) ∙ ap (map parked_id) (ok_inj e))
              | skip ↦ λ e. ([], refl, ap (map parked_id) (ok_inj e))
            ]
      h

diff_page-Empty :
    (deps : PageDeps) (lane : Lane) (now : ℕ) (cursor : String) (sequence : ℕ)
    (existing : Map String ItemRow) (items : List Value) (parked : List ParkedRow)
    (prepared : Prepared)
    → (diff_candidates deps.poller existing now false prepared.candidates).changes ≡ []
    → (diff_candidates deps.poller existing now false prepared.candidates).upserts ≡ []
    → let c = diff_page deps lane now cursor false false sequence existing items parked prepared in
      (c.events ≡ []) × (c.upserts ≡ []) × (c.sequence ≡ sequence)
unfolding diff_page page_commit number_events
diff_page-Empty deps lane now cursor sequence existing items parked prepared h k =
    rw (h, k) (refl, refl, omega arith)

module _ (deps : PageDeps) (s t : MemoryStore) where
  abbrev items_of : MemoryStore → Map String ItemRow
  items_of store = (record_of store deps.key).items

  -- Of the rows that a page reads, those in a store that has them written.
  page_rows-agree :
      (items : List Value) (id : String) (upserts : List ItemRow)
      → elem id (strings_of (map deps.poller.identity items)) ≡ true
      → Map.get id (items_of t) ≡ Map.get id (Map.set_all id_of upserts (items_of s))
      → Map.get id (page_rows deps t items)
        ≡ Map.get id (Map.set_all id_of upserts (page_rows deps s items))
  unfolding page_rows
  page_rows-agree items id upserts n h =
      let ids = strings_of (map deps.poller.identity items) in
      load_versions_lem t deps.key ids id
      ∙ rw n (
          h
          ∙ set_all-Agrees upserts id (items_of s) (page_rows deps s items)
              (sym (load_versions_lem s deps.key ids id ∙ rw n refl)))

  -- Once the rows of a page are stored, whatever the time, the lane and the number of the next event,
  -- the page gives no event, writes no row and leaves the number, where it is no part of a full scan.
  process_page_again :
      (lane lane' : Lane) (now later : ℕ) (raw : List Value) (sequence sequence' : ℕ)
      (full force : Bool) (cursor cursor' : String) (commit : PageCommit)
      → process_page deps s lane now raw sequence full force cursor ≡ ok commit
      → All (HasStringId deps.poller) (validate_items deps.schema raw).valid
      → ((id : String)
          → Map.get id (items_of t) ≡ Map.get id (Map.set_all id_of commit.upserts (items_of s)))
      → (again : PageCommit) × (process_page deps t lane' later raw sequence' false false cursor'
          ≡ ok again)
        × (again.events ≡ [])
        × (again.upserts ≡ [])
        × (again.sequence ≡ sequence')
        × (map parked_id again.parked ≡ map parked_id commit.parked)
  unfolding process_page diff_page page_commit
  process_page_again lane lane' now later raw sequence sequence' full force cursor cursor' commit h
        named stored =
      let page = validate_items deps.schema raw in
      let (parked, p, q) = chain-ok (handle_invalid deps now page.invalid) _ h in
      let (prepared, r, e) =
        chain-ok
          (prepare_candidates deps.digest deps.poller (page_rows deps s page.valid) page.valid) _
          q in
      let (again, a, same) = handle_invalid-again deps now later page.invalid parked p in
      let named' = strings_of-Named deps.poller page.valid named in
      let (found, b, changes, upserts) =
        prepare_candidates_again deps.digest deps.poller (page_rows deps s page.valid) now full
          (λ id. elem id (strings_of (map deps.poller.identity page.valid)) ≡ true) page.valid
          prepared (page_rows deps t page.valid) later r named'
          (λ id n.
            page_rows-agree page.valid id
              (diff_candidates deps.poller (page_rows deps s page.valid) now full
                prepared.candidates).upserts
              n
              (stored id
                ∙ ap (λ (u : List ItemRow). Map.get id (Map.set_all id_of u (items_of s)))
                    (cc e))) in
      let empty =
        diff_page-Empty deps lane' later cursor' sequence' (page_rows deps t page.valid) page.valid
          again found changes upserts in
      let repeated =
        diff_page deps lane' later cursor' false false sequence' (page_rows deps t page.valid)
          page.valid again found in
      (
        repeated,
        rw (a, b) refl,
        empty.0,
        empty.1,
        empty.2,
        same ∙ ap (λ (c : PageCommit). map parked_id c.parked) (ok_inj e),
      )

module _ {W C : Type 0} (api : Api W C) (strategy : Strategy C) (deps : CycleDeps)
    (lane : Lane) where
  abbrev rows_of : MemoryStore → Map String ItemRow
  rows_of s = (record_of s deps.page.key).items

  committed_rows :
      (before : LaneCursor) (force : Bool) (commit : PageCommit) (c : Cycle W C)
      → holds (record_of c.store deps.page.key) deps.lease ≡ true
      → rows_of (commit_page api strategy deps lane before force commit c).1.store
        ≡ Map.set_all id_of commit.upserts (rows_of c.store)
  unfolding commit_page page_batch apply_batch Map.delete_all
  committed_rows before force commit c h =
      let batch = page_batch api strategy deps lane before force commit c in
      ap rows_of (
        written-store api strategy deps lane c
          (committed api strategy deps lane batch c.sequence (now_of api strategy deps lane c))
          (λ e. refl) (commit_poll c.store deps.page.key deps.lease batch))
      ∙ ap (λ (r : KeyRecord). r.items) (committed_record c.store deps.page.key deps.lease batch h)

  -- A page that was committed under the lease and is fetched again gives no event, no item row and
  -- uses no number, whatever the lane, the time and the cursor then, where its items have strings as
  -- identities and it is no part of a full scan or of a forced backfill. Items that are quarantined
  -- are parked again, under the ids that they are parked under.
  pub commit_page-process_page :
      (lane' : Lane) (before : LaneCursor) (full force held : Bool) (c : Cycle W C)
      (now later sequence sequence' : ℕ) (raw : List Value) (cursor cursor' : String)
      (commit : PageCommit)
      → process_page deps.page c.store lane now raw sequence full force cursor ≡ ok commit
      → holds (record_of c.store deps.page.key) deps.lease ≡ true
      → All (HasStringId deps.page.poller) (validate_items deps.page.schema raw).valid
      → let stored = (commit_page api strategy deps lane before held commit c).1.store in
        (again : PageCommit) × (process_page deps.page stored lane' later raw sequence' false false
            cursor'
          ≡ ok again)
        × (again.events ≡ [])
        × (again.upserts ≡ [])
        × (again.sequence ≡ sequence')
        × (map parked_id again.parked ≡ map parked_id commit.parked)
  commit_page-process_page lane' before full force held c now later sequence sequence' raw cursor
        cursor' commit h granted named =
      process_page_again deps.page c.store
        (commit_page api strategy deps lane before held commit c).1.store lane lane' now later raw
        sequence sequence' full force cursor cursor' commit h named
        (λ id. ap (Map.get id) (committed_rows before held commit c granted))
