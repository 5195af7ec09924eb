-- ===== src/Store/Examples.antt =====
-- Runs of src/stores/memory/memory-store.ts at concrete stores, and the theorems of the store at
-- inputs that meet their hypotheses.
use watukuy.Base.{
  String, filter, min, ◌+◌, ◌≤◌, ◌<◌, true, false, none, some, ◌≡◌, refl, ◌≢◌, ◌⊎◌, inl, List, [],
  ◌∷◌, if◌then◌else◌, ◌==◌, All, In, length, string_eq,
}
use watukuy.Base.Map
use watukuy.Base.Sort.{IsSorted}
use watukuy.Types.{
  PKey, pkey_eq, Lease, null, OutboxRow, StatePatch, CommitBatch, ParkedRow, poison, ok, err,
}
use watukuy.Types.Samples.{orders_key as orders, first_event, first_row, order_item, lease_a}
use watukuy.Store.{
  MemoryStore, new_store, record_of, lost, acquire_lease, commit_poll, delete_key, retry_parked,
  ack_events,
}
use watukuy.Store.Rows.{retryable, KeyRecord, empty_record, holds}
use watukuy.Store.Calls.{commits, acks, write, Call, acquires, releases, writes, step, run, effect}
use watukuy.Store.Fencing.{record_of-step, write-record_of}
use watukuy.Store.Epochs.{stale_write_refused, acquire_lease-exclusive, delete_key_revives}
use watukuy.Store.Commit.{Committed, commit_poll_atomic}
use watukuy.Store.Delivery.{Queued, Settled, run-Queued}
use watukuy.Store.Parking.{retry_parked_lem, IsFirst}
use watukuy.Store.Queries.{load_pending, is_pending, by_sequence}
use watukuy.Store.Queries.Pending.{load_pending_lem}

abbrev no_patch : StatePatch
no_patch = record {
  lanes = none;
  schedule = none;
  paused = none;
  schema_version = none;
  sequence = some 1;
  updated_at = some 10;
}

abbrev batch : CommitBatch
batch = record {
  state_patch = no_patch;
  upserts = order_item ∷ [];
  deletes = [];
  events = first_row ∷ [];
  log = true;
  parked = [];
}

abbrev poisoned : ParkedRow
poisoned = record {
  id = "e1";
  kind = poison;
  event = some first_event;
  item = null;
  error = record {
    error = record {
      frame = record { name = "Error"; message = "boom"; code = none; status = none };
      causes = [];
    };
    history = [];
    issues = [];
  };
  attempts = 5;
  parked_at = 20;
  hold_key = some "o1";
}

abbrev lease_b : Lease
lease_b = record { owner = "b"; epoch = 2; expires_at = 250 }

-- Instance `a` acquires the key and commits a poll.
abbrev past : List (PKey × Call)
past = (orders, acquires "a" 100 0) ∷ (orders, writes lease_a (commits batch)) ∷ []

abbrev polled : MemoryStore
polled = run new_store past

abbrev queued_record : KeyRecord
queued_record = record empty_record {
  lease = some lease_a;
  epoch_counter = 1;
  outbox = ("e1", first_row) ∷ [];
}

abbrev queued_store : MemoryStore
queued_store = record { records = (orders, queued_record) ∷ [] }

abbrev parked_store : MemoryStore
parked_store = record {
  records = (orders, record empty_record { parked = ("e1", poisoned) ∷ [] }) ∷ [];
}

-- Once its event is acknowledged the outbox is empty, and the item row stays.
polled_outbox :
    ((record_of polled orders).outbox ≡ ("e1", first_row) ∷ [])
    × ((record_of (step polled (orders, writes lease_a (acks ("e1" ∷ [])))) orders).outbox ≡ [])
unfolding run step write acquire_lease commit_poll Map.get Map.set Map.delete Map.set_all
    Map.delete_all ack_events
polled_outbox = (refl, refl)

write-record_of_example :
    ((write polled orders lease_b (acks ("e1" ∷ []))).0
      ≡ (if holds (record_of polled orders) lease_b then ok tt else err (lost orders lease_b)))
    × (record_of (write polled orders lease_b (acks ("e1" ∷ []))).1 orders ≡ (
        if orders == orders
        then effect (writes lease_b (acks ("e1" ∷ []))) (record_of polled orders)
        else record_of polled orders))
write-record_of_example = write-record_of polled orders orders lease_b (acks ("e1" ∷ []))

record_of-step_example : record_of (step polled (orders, releases lease_a)) orders ≡ (
    if orders == orders
    then effect (releases lease_a) (record_of polled orders)
    else record_of polled orders)
record_of-step_example = record_of-step polled orders orders (releases lease_a)

-- `b` takes the key over once `a`'s lease has run out; the late write of `a` is refused.
stale_write_refused_example :
    ((write
        (run (acquire_lease polled orders "b" 100 150).1 [])
        orders
        lease_a
        (acks ("e1" ∷ []))).0
      ≡ err (lost orders lease_a))
    × ((j : PKey)
        → record_of
            (write
              (run (acquire_lease polled orders "b" 100 150).1 [])
              orders
              lease_a
              (acks ("e1" ∷ []))).1
            j
          ≡ record_of (run (acquire_lease polled orders "b" 100 150).1 []) j)
unfolding run step write acquire_lease commit_poll holds record_of Map.get Map.set Map.set_all
    Map.delete_all
stale_write_refused_example =
    stale_write_refused past [] orders "b" 100 150 lease_a lease_b (acks ("e1" ∷ [])) refl refl tt

acquire_lease-exclusive_example :
    ((acquire_lease polled orders "b" 100 50).0 ≡ none
      → (l : Lease) × ((record_of polled orders).lease ≡ some l)
        × (50 < l.expires_at)
        × (l.owner ≢ "b"))
    × ((l : Lease)
        → (record_of polled orders).lease ≡ some l
        → 50 < l.expires_at
        → l.owner ≢ "b"
        → (acquire_lease polled orders "b" 100 50).0 ≡ none)
    × ((new : Lease)
        → (acquire_lease polled orders "b" 100 50).0 ≡ some new
        → (new.owner ≡ "b")
          × (new.epoch ≡ (record_of polled orders).epoch_counter + 1)
          × (new.expires_at ≡ 150)
          × (holds (record_of (acquire_lease polled orders "b" 100 50).1 orders) new ≡ true))
acquire_lease-exclusive_example = acquire_lease-exclusive polled orders "b" 100 50

delete_key_revives_example :
    holds (record_of (acquire_lease (delete_key polled orders) orders "a" 100 200).1 orders) lease_a
    ≡ true
delete_key_revives_example = delete_key_revives polled orders lease_a 100 200 refl

commit_poll_atomic_example :
    (holds (record_of queued_store orders) lease_a ≡ true
      → ((commit_poll queued_store orders lease_a batch).0 ≡ ok tt)
        × Committed batch
            (record_of queued_store orders)
            (record_of (commit_poll queued_store orders lease_a batch).1 orders))
    × (holds (record_of queued_store orders) lease_a ≡ false
        → ((commit_poll queued_store orders lease_a batch).0 ≡ err (lost orders lease_a))
          × ((j : PKey)
              → record_of (commit_poll queued_store orders lease_a batch).1 j
                ≡ record_of queued_store j))
commit_poll_atomic_example = commit_poll_atomic queued_store orders lease_a batch

run-Queued_example :
    Queued "e1" (record_of (run queued_store ((orders, releases lease_a) ∷ [])) orders)
    ⊎ Settled "e1" orders queued_store ((orders, releases lease_a) ∷ [])
unfolding record_of Map.get
run-Queued_example = run-Queued "e1" orders queued_store ((orders, releases lease_a) ∷ []) refl

retry_parked_example :
    let after = record_of (retry_parked parked_store orders ("e1" ∷ [])).1 orders in
    (Map.get "e1" after.parked ≡ none)
    × ((new : OutboxRow) × (other : String) × (Map.get "e1" after.outbox ≡ some new)
        × IsFirst "e1" new
        × In other ("e1" ∷ [])
        × (retryable (Map.get other (record_of parked_store orders).parked)
            ≡ some (new.event, new.created_at)))
unfolding record_of Map.get
retry_parked_example =
    retry_parked_lem parked_store orders ("e1" ∷ []) "e1" poisoned first_event (inl refl) refl refl
      refl

load_pending_example :
    All
      (λ r. In r (Map.values (record_of queued_store orders).outbox) × (is_pending r ≡ true))
      (load_pending queued_store orders 5)
    × (length (load_pending queued_store orders 5)
        ≡ min 5 (length (filter is_pending (Map.values (record_of queued_store orders).outbox))))
    × IsSorted by_sequence (load_pending queued_store orders 5)
    × ((r : OutboxRow)
        → In r (Map.values (record_of queued_store orders).outbox)
        → is_pending r ≡ true
        → In r (load_pending queued_store orders 5)
          ⊎ All (λ x. x.sequence ≤ r.sequence) (load_pending queued_store orders 5))
load_pending_example = load_pending_lem queued_store orders 5
