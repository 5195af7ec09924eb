-- ===== src/Store.antt =====
-- src/stores/memory/memory-store.ts: the in-memory `StateStore`, the reference implementation of
-- the store contract. A method takes the store and returns the new one beside its result; a fenced
-- write that is refused still leaves the record that the lookup of its key made.
pub mod Rows
pub mod Calls
pub mod Fencing
pub mod Epochs
pub mod Delivery
pub mod Commit
pub mod Queries
pub mod Parking
mod Examples
use watukuy.Base.{
  ℕ, zero, suc, ◌+◌, ◌-◌, ◌*◌, String, Bool, true, false, not, ◌&&◌, ◌||◌, Option, none, some, List,
  [], ◌∷◌, ◌++◌, map, ltb, leb, nat_eqb, if◌then◌else◌, or_else, length, take, filter, ◌==◌,
  is_some, string_eq,
}
use watukuy.Base.Map
use watukuy.Base.Map.{Map}
use watukuy.Base.Sort.{sort}
use watukuy.Types.{
  Error, lease_lost, PKey, pkey_eq, Lease, PollerState, StatePatch, ItemRow, OutboxRow, ParkedRow,
  ParkedKind, poison, invalid, LoggedEvent, CommitBatch, Validator, SerializedError, Result, ok,
  err, pending, OutboxStatus, delivered,
}
use Rows.{
  KeyRecord, empty_record, apply_patch, apply_batch, remove_acked, bump_attempt, park_row, holds,
  retry_rows, discard_rows,
}

pub record MemoryStore : Type 0 where
  pub records : Map PKey KeyRecord

abbrev pub new_store : MemoryStore
new_store = record { records = [] }

-- this.record(key): the record of the key, which a first lookup makes.
unfoldable pub record_of : MemoryStore → PKey → KeyRecord
record_of s key = or_else (Map.get key s.records) empty_record

unfoldable pub put : MemoryStore → PKey → KeyRecord → MemoryStore
put s key rec = record { records = Map.set key rec s.records }

unfoldable pub peek : MemoryStore → PKey → Option KeyRecord
peek s key = Map.get key s.records

abbrev pub lost : PKey → Lease → Error
lost key lease = lease_lost key.poller key.partition lease.epoch

-- A write behind `fence`: refused unless the record's lease is the caller's.
unfoldable pub fenced :
    MemoryStore → PKey → Lease → (KeyRecord → KeyRecord) → Result (Unit {0}) × MemoryStore
unfolding record_of put holds
fenced s key lease f =
    let rec = record_of s key in
    if holds rec lease then (ok tt, put s key (f rec)) else (err (lost key lease), put s key rec)

abbrev pub taken : Option Lease → String → ℕ → Bool
taken none owner now = false
taken (some l) owner now = ltb now l.expires_at && not (l.owner == owner)

unfoldable pub acquire_lease : MemoryStore → PKey → String → ℕ → ℕ → Option Lease × MemoryStore
unfolding record_of put
acquire_lease s key owner ttl now =
    let rec = record_of s key in
    let epoch = rec.epoch_counter + 1 in
    let lease : Lease = record { owner = owner; epoch = epoch; expires_at = now + ttl } in
    if taken rec.lease owner now
    then (none, put s key rec)
    else (some lease, put s key (record rec { epoch_counter = epoch; lease = some lease }))

abbrev pub expiring_at : ℕ → Option Lease → Option Lease
expiring_at t none = none
expiring_at t (some l) = some (record l { expires_at = t })

-- `renew` moves the expiry of the record's lease, `release` drops the lease.
unfoldable pub renew_lease : MemoryStore → PKey → Lease → ℕ → ℕ → Bool × MemoryStore
unfolding record_of put holds
renew_lease s key lease ttl now =
    let rec = record_of s key in
    if holds rec lease
    then (true, put s key (record rec { lease = expiring_at (now + ttl) rec.lease }))
    else (false, put s key rec)

unfoldable pub release_lease : MemoryStore → PKey → Lease → MemoryStore
unfolding record_of put holds
release_lease s key lease =
    let rec = record_of s key in
    put s key (if holds rec lease then record rec { lease = none } else rec)

unfoldable pub get_lease : MemoryStore → PKey → Option Lease
unfolding record_of
get_lease s key = (record_of s key).lease

unfoldable pub load_state : MemoryStore → PKey → Option PollerState
unfolding record_of
load_state s key = (record_of s key).state

unfoldable pub save_state :
    MemoryStore → PKey → Lease → StatePatch → Result (Unit {0}) × MemoryStore
unfolding fenced apply_patch
save_state s key lease patch = fenced s key lease (apply_patch patch)

unfoldable pub save_state_unfenced : MemoryStore → PKey → StatePatch → MemoryStore
unfolding record_of put apply_patch
save_state_unfenced s key patch = put s key (apply_patch patch (record_of s key))

-- The records of every poller, or of one.
unfoldable pub list_keys : MemoryStore → Option String → List PKey
list_keys s none = Map.keys s.records
list_keys s (some poller) = filter (λ (k : PKey). k.poller == poller) (Map.keys s.records)

unfoldable pub delete_key : MemoryStore → PKey → MemoryStore
delete_key s key = record { records = Map.delete key s.records }

abbrev pub in_place : MemoryStore → PKey → (KeyRecord → KeyRecord) → Option KeyRecord → MemoryStore
in_place s key f none = s
in_place s key f (some rec) = record { records = Map.set key (f rec) s.records }

unfoldable pub clear_items : MemoryStore → PKey → MemoryStore
unfolding peek
clear_items s key = in_place s key (λ rec. record rec { items = [] }) (peek s key)

unfoldable pub commit_poll :
    MemoryStore → PKey → Lease → CommitBatch → Result (Unit {0}) × MemoryStore
unfolding fenced apply_batch
commit_poll s key lease batch = fenced s key lease (apply_batch batch)

unfoldable pub ack_events :
    MemoryStore → PKey → Lease → List String → Result (Unit {0}) × MemoryStore
unfolding fenced
ack_events s key lease ids =
    fenced s key lease (λ rec. record rec { outbox = remove_acked ids rec.outbox })

unfoldable pub record_attempt :
    MemoryStore
    → PKey
    → Lease
    → String
    → Option SerializedError
    → Option ℕ
    → Result (Unit {0}) × MemoryStore
unfolding fenced bump_attempt
record_attempt s key lease id error next_at =
    fenced s key lease (λ rec. record rec { outbox = bump_attempt id error next_at rec.outbox })

unfoldable pub park_event : MemoryStore → PKey → Lease → ParkedRow → Result (Unit {0}) × MemoryStore
unfolding fenced park_row
park_event s key lease row = fenced s key lease (park_row row)

unfoldable pub set_validator :
    MemoryStore → PKey → Lease → String → Validator → Result (Unit {0}) × MemoryStore
unfolding fenced
set_validator s key lease url_hash v =
    fenced s key lease (λ rec. record rec { validators = Map.set url_hash v rec.validators })

-- A method that edits the record in place and reports a count: 0 where there is no record.
abbrev pub reported :
    MemoryStore → PKey → (KeyRecord → ℕ × KeyRecord) → Option KeyRecord → ℕ × MemoryStore
reported s key f none = (0, s)
reported s key f (some rec) = ((f rec).0, record { records = Map.set key (f rec).1 s.records })

-- `retryParked` and `discardParked` are administrative: they take no lease.
unfoldable pub retry_parked : MemoryStore → PKey → List String → ℕ × MemoryStore
unfolding peek retry_rows
retry_parked s key ids = reported s key (retry_rows ids) (peek s key)

unfoldable pub discard_parked : MemoryStore → PKey → List String → ℕ × MemoryStore
unfolding peek discard_rows
discard_parked s key ids = reported s key (discard_rows ids) (peek s key)

abbrev pub pruned : ℕ → KeyRecord → ℕ × KeyRecord
pruned older_than rec =
    let log = filter (λ (e : LoggedEvent). leb older_than e.created_at) rec.log in
    (length rec.log - length log, record rec { log = log })

unfoldable pub prune_log : MemoryStore → PKey → ℕ → ℕ × MemoryStore
unfolding peek
prune_log s key older_than = reported s key (pruned older_than) (peek s key)
