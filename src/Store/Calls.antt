-- ===== src/Store/Calls.antt =====
-- The methods of src/stores/memory/memory-store.ts that change state, as one step function, so that
-- histories of the store are lists of calls.
use watukuy.Base.{
  ℕ, ◌+◌, String, Option, none, some, List, [], ◌∷◌, leb, filter, if◌then◌else◌, string_eq,
}
use watukuy.Base.Map
use watukuy.Types.{
  PKey, Lease, StatePatch, CommitBatch, ParkedRow, SerializedError, Validator, Result, LoggedEvent,
}
use watukuy.Store.{
  MemoryStore, acquire_lease, renew_lease, release_lease, save_state, save_state_unfenced,
  delete_key, clear_items, commit_poll, ack_events, record_attempt, park_event, set_validator,
  retry_parked, discard_parked, prune_log, taken, expiring_at,
}
use watukuy.Store.Rows.{
  KeyRecord, empty_record, holds, apply_patch, apply_batch, remove_acked, bump_attempt, park_row,
  retry_rows, discard_rows,
}

-- The writes that carry a lease.
pub data Write : Type 0 where
  saves : StatePatch → Write
  commits : CommitBatch → Write
  acks : List String → Write
  attempts : String → Option SerializedError → Option ℕ → Write
  parks : ParkedRow → Write
  validates : String → Validator → Write

unfoldable pub write : MemoryStore → PKey → Lease → Write → Result (Unit {0}) × MemoryStore
write s key lease (saves patch) = save_state s key lease patch
write s key lease (commits batch) = commit_poll s key lease batch
write s key lease (acks ids) = ack_events s key lease ids
write s key lease (attempts id error next_at) = record_attempt s key lease id error next_at
write s key lease (parks row) = park_event s key lease row
write s key lease (validates url_hash v) = set_validator s key lease url_hash v

pub data Call : Type 0 where
  acquires : String → ℕ → ℕ → Call
  renews : Lease → ℕ → ℕ → Call
  releases : Lease → Call
  writes : Lease → Write → Call
  saves_unfenced : StatePatch → Call
  clears_items : Call
  retries discards : List String → Call
  prunes : ℕ → Call
  deletes : Call

-- A call on one key.
unfoldable pub step : MemoryStore → PKey × Call → MemoryStore
step s (key, acquires owner ttl now) = (acquire_lease s key owner ttl now).1
step s (key, renews lease ttl now) = (renew_lease s key lease ttl now).1
step s (key, releases lease) = release_lease s key lease
step s (key, writes lease w) = (write s key lease w).1
step s (key, saves_unfenced patch) = save_state_unfenced s key patch
step s (key, clears_items) = clear_items s key
step s (key, retries ids) = (retry_parked s key ids).1
step s (key, discards ids) = (discard_parked s key ids).1
step s (key, prunes older_than) = (prune_log s key older_than).1
step s (key, deletes) = delete_key s key

unfoldable pub run : MemoryStore → List (PKey × Call) → MemoryStore
run s [] = s
run s (c ∷ cs) = run (step s c) cs

-- What a write does to the record of its key, once the fence has let it through.
abbrev pub write_effect : Write → KeyRecord → KeyRecord
write_effect (saves patch) rec = apply_patch patch rec
write_effect (commits batch) rec = apply_batch batch rec
write_effect (acks ids) rec = record rec { outbox = remove_acked ids rec.outbox }
write_effect (attempts id error next_at) rec = record rec {
  outbox = bump_attempt id error next_at rec.outbox;
}
write_effect (parks row) rec = park_row row rec
write_effect (validates url_hash v) rec = record rec {
  validators = Map.set url_hash v rec.validators;
}

abbrev granted : String → ℕ → ℕ → KeyRecord → KeyRecord
granted owner ttl now rec = record rec {
  epoch_counter = rec.epoch_counter + 1;
  lease = some (record { owner = owner; epoch = rec.epoch_counter + 1; expires_at = now + ttl });
}

-- What a call does to the record of its key.
abbrev pub effect : Call → KeyRecord → KeyRecord
effect (acquires owner ttl now) rec =
    if taken rec.lease owner now then rec else granted owner ttl now rec
effect (renews lease ttl now) rec =
    if holds rec lease then record rec { lease = expiring_at (now + ttl) rec.lease } else rec
effect (releases lease) rec = if holds rec lease then record rec { lease = none } else rec
effect (writes lease w) rec = if holds rec lease then write_effect w rec else rec
effect (saves_unfenced patch) rec = apply_patch patch rec
effect clears_items rec = record rec { items = [] }
effect (retries ids) rec = (retry_rows ids rec).1
effect (discards ids) rec = (discard_rows ids rec).1
effect (prunes older_than) rec = record rec {
  log = filter (λ (e : LoggedEvent). leb older_than e.created_at) rec.log;
}
effect deletes rec = empty_record
