-- ===== src/Store/Rows.antt =====
-- src/stores/memory/memory-store.ts: what the store keeps for one key, and what each method does
-- to it. Values are immutable here, so `clone` is the identity.
use watukuy.Base.{
  ℕ, ◌+◌, String, Bool, false, ◌&&◌, Option, none, some, List, [], ◌∷◌, ◌++◌, map, nat_eqb,
  if◌then◌else◌, or_else, ◌==◌, string_eq,
}
use watukuy.Base.Map
use watukuy.Base.Map.{Map}
use watukuy.Types.{
  Lease, PollerState, StatePatch, closed, no_lanes, ItemRow, OutboxRow, ParkedRow, ParkedKind,
  poison, LoggedEvent, CommitBatch, Validator, SerializedError, WatukuyEvent, pending,
}

pub record KeyRecord : Type 0 where
  pub state : Option PollerState
  pub lease : Option Lease
  pub epoch_counter : ℕ
  pub items : Map String ItemRow
  pub outbox : Map String OutboxRow
  pub parked : Map String ParkedRow
  pub validators : Map String Validator
  pub log : List LoggedEvent

abbrev pub empty_record : KeyRecord
empty_record = record {
  state = none;
  lease = none;
  epoch_counter = 0;
  items = [];
  outbox = [];
  parked = [];
  validators = [];
  log = [];
}

-- emptyPollerState(now)
unfoldable pub empty_poller_state : ℕ → PollerState
empty_poller_state now = record {
  lanes = no_lanes;
  schedule = record {
    next_due_at = none;
    interval_ms = none;
    consecutive_failures = 0;
    circuit = closed;
    circuit_opened_at = none;
    throttled_until = none;
    rate_limit = none;
    last_poll_at = none;
    last_poll = none;
    last_error = none;
  };
  paused = false;
  schema_version = none;
  sequence = 0;
  created_at = now;
  updated_at = now;
}

-- The test of `fence`, of `renewLease` and of `releaseLease`.
abbrev same_lease : Option Lease → Lease → Bool
same_lease none lease = false
same_lease (some l) lease = (l.owner == lease.owner) && nat_eqb l.epoch lease.epoch

unfoldable pub holds : KeyRecord → Lease → Bool
holds rec lease = same_lease rec.lease lease

-- `{ ...base, ...patch, createdAt: base.createdAt }`
unfoldable pub patch_state : StatePatch → PollerState → PollerState
patch_state patch base = record {
  lanes = or_else patch.lanes base.lanes;
  schedule = or_else patch.schedule base.schedule;
  paused = or_else patch.paused base.paused;
  schema_version = or_else patch.schema_version base.schema_version;
  sequence = or_else patch.sequence base.sequence;
  created_at = base.created_at;
  updated_at = or_else patch.updated_at base.updated_at;
}

unfoldable pub apply_patch : StatePatch → KeyRecord → KeyRecord
unfolding patch_state empty_poller_state
apply_patch patch rec =
    let base = or_else rec.state (empty_poller_state (or_else patch.updated_at 0)) in
    record rec { state = some (patch_state patch base) }

abbrev pub logged : OutboxRow → LoggedEvent
logged r = record { sequence = r.sequence; event = r.event; created_at = r.created_at }

unfoldable pub apply_batch : CommitBatch → KeyRecord → KeyRecord
unfolding apply_patch
apply_batch batch rec =
    let log = if batch.log then rec.log ++ map logged batch.events else rec.log in
    record (apply_patch batch.state_patch rec) {
      items =
          Map.delete_all batch.deletes
            (Map.set_all (λ (r : ItemRow). r.identity) batch.upserts rec.items);
      outbox = Map.set_all (λ (r : OutboxRow). r.event_id) batch.events rec.outbox;
      parked = Map.set_all (λ (r : ParkedRow). r.id) batch.parked rec.parked;
      log = log;
    }

abbrev pub remove_acked : List String → Map String OutboxRow → Map String OutboxRow
remove_acked = Map.delete_all

abbrev pub attempted : Option SerializedError → Option ℕ → OutboxRow → OutboxRow
attempted error next_at row = record row {
  attempts = row.attempts + 1;
  last_error = error;
  next_attempt_at = next_at;
}

unfoldable pub bump_attempt :
    String → Option SerializedError → Option ℕ → Map String OutboxRow → Map String OutboxRow
bump_attempt id error next_at m = elim (Map.get id m) [
  | none ↦ m
  | some row ↦ Map.set id (attempted error next_at row) m
]

abbrev without_event : Option WatukuyEvent → Map String OutboxRow → Map String OutboxRow
without_event none m = m
without_event (some event) m = Map.delete event.id m

unfoldable pub park_row : ParkedRow → KeyRecord → KeyRecord
park_row row rec = record rec {
  parked = Map.set row.id row rec.parked;
  outbox = without_event row.event rec.outbox;
}

-- The outbox row that a retried poison event gets.
abbrev pub requeued : WatukuyEvent → ℕ → OutboxRow
requeued event parked_at = record {
  event_id = event.id;
  sequence = event.sequence;
  event = event;
  status = pending;
  attempts = 0;
  next_attempt_at = none;
  last_error = none;
  created_at = parked_at;
}

abbrev poison_event : ParkedKind → Option WatukuyEvent → ℕ → Option (WatukuyEvent × ℕ)
poison_event poison (some event) at = some (event, at)
poison_event _ _ at = none

-- The event of a parked row that `retryParked` moves: a poison row with an event.
abbrev pub retryable : Option ParkedRow → Option (WatukuyEvent × ℕ)
retryable none = none
retryable (some row) = poison_event row.kind row.event row.parked_at

unfoldable pub retry_row : String → KeyRecord → ℕ × KeyRecord
retry_row id rec = elim (retryable (Map.get id rec.parked)) [
  | none ↦ (0, rec)
  | some (event, at) ↦ (
    1,
    record rec {
      outbox = Map.set event.id (requeued event at) rec.outbox;
      parked = Map.delete id rec.parked;
    },
  )
]

unfoldable pub retry_rows : List String → KeyRecord → ℕ × KeyRecord
unfolding retry_row
retry_rows [] rec = (0, rec)
retry_rows (id ∷ ids) rec =
    let one = retry_row id rec in let rest = retry_rows ids one.1 in (one.0 + rest.0, rest.1)

unfoldable pub discard_rows : List String → KeyRecord → ℕ × KeyRecord
discard_rows [] rec = (0, rec)
discard_rows (id ∷ ids) rec =
    let rest = discard_rows ids (record rec { parked = Map.delete id rec.parked }) in
    ((if Map.has id rec.parked then 1 + rest.0 else rest.0), rest.1)
