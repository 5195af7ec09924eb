-- ===== src/Store/Commit.antt =====
-- What `commitPoll` leaves in the record of its key.
use watukuy.Base.{
  String, true, false, none, some, ◌≡◌, refl, sym, subst, ◌++◌, map, if◌then◌else◌, In, string_eq,
  or_else, elem,
}
use watukuy.Base.Map
use watukuy.Base.Map.{Absent, Distinct, get-set_all-Absent, get-set_all-In, get-delete_all}
use watukuy.Types.{PKey, pkey_eq, Lease, ItemRow, OutboxRow, ParkedRow, CommitBatch, ok, err}
use watukuy.Store.{MemoryStore, record_of, commit_poll, lost}
use watukuy.Store.Rows.{KeyRecord, holds, apply_batch, logged, patch_state, empty_poller_state}
use watukuy.Store.Calls.{commits, write}
use watukuy.Store.Fencing.{write_granted, write_refused}

abbrev event_key : OutboxRow → String
event_key r = r.event_id

abbrev item_key : ItemRow → String
item_key r = r.identity

abbrev parked_key : ParkedRow → String
parked_key r = r.id

-- What a batch makes of a record, read row by row.
pub record Committed (batch : CommitBatch) (old new : KeyRecord) : Type 0 where
  pub events_in :
      (r : OutboxRow)
      → Distinct event_key batch.events
      → In r batch.events
      → Map.get r.event_id new.outbox ≡ some r
  pub events_out :
      (id : String)
      → Absent event_key id batch.events
      → Map.get id new.outbox ≡ Map.get id old.outbox
  pub items_in :
      (r : ItemRow)
      → Distinct item_key batch.upserts
      → In r batch.upserts
      → Map.get r.identity new.items ≡ (if elem r.identity batch.deletes then none else some r)
  pub items_out :
      (id : String)
      → Absent item_key id batch.upserts
      → Map.get id new.items ≡ (if elem id batch.deletes then none else Map.get id old.items)
  pub parked_in :
      (r : ParkedRow)
      → Distinct parked_key batch.parked
      → In r batch.parked
      → Map.get r.id new.parked ≡ some r
  pub parked_out :
      (id : String)
      → Absent parked_key id batch.parked
      → Map.get id new.parked ≡ Map.get id old.parked
  pub log : new.log ≡ (if batch.log then old.log ++ map logged batch.events else old.log)
  pub state :
      new.state
      ≡ some (
          patch_state batch.state_patch
            (or_else old.state (empty_poller_state (or_else batch.state_patch.updated_at 0))))

apply_batch-Committed :
    (batch : CommitBatch) (rec : KeyRecord) → Committed batch rec (apply_batch batch rec)
unfolding apply_batch
apply_batch-Committed batch rec = record {
  events_in = λ r d i. get-set_all-In event_key batch.events r rec.outbox d i;
  events_out = λ id a. get-set_all-Absent event_key batch.events id rec.outbox a;
  items_in =
      λ r d i. rw (get-delete_all, get-set_all-In item_key batch.upserts r rec.items d i) refl;
  items_out =
      λ id a. rw (get-delete_all, get-set_all-Absent item_key batch.upserts id rec.items a) refl;
  parked_in = λ r d i. get-set_all-In parked_key batch.parked r rec.parked d i;
  parked_out = λ id a. get-set_all-Absent parked_key batch.parked id rec.parked a;
  log = refl;
  state = refl;
}

-- A poll is committed whole or not at all. With the lease in force the call succeeds, and cursor
-- state, item rows, events, parked rows and log of the key are those of the batch over the old
-- ones; else it throws and what is kept under every key stays as it was.
pub commit_poll_atomic :
    (s : MemoryStore) (key : PKey) (lease : Lease) (batch : CommitBatch)
    → (holds (record_of s key) lease ≡ true
        → ((commit_poll s key lease batch).0 ≡ ok tt)
          × Committed batch (record_of s key) (record_of (commit_poll s key lease batch).1 key))
      × (holds (record_of s key) lease ≡ false
          → ((commit_poll s key lease batch).0 ≡ err (lost key lease))
            × ((j : PKey) → record_of (commit_poll s key lease batch).1 j ≡ record_of s j))
unfolding write
commit_poll_atomic s key lease batch = (
  λ h.
      let g = write_granted s key lease (commits batch) h in
      (
        g.0,
        subst (Committed batch (record_of s key)) (sym g.1)
            (apply_batch-Committed batch (record_of s key)),
      ),
  λ h. write_refused s key lease (commits batch) h,
)
