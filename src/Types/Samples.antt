-- ===== src/Types/Samples.antt =====
-- A poller, a key, an event and the rows of its outbox, at which the theorems are tried out.
use watukuy.Base.{String, none, true, false}
use watukuy.Types.{
  Value, string, object, member, no_members, null, ResolvedPoller, hash_only, quarantine, emit,
  park, PKey, Lease, live, created, WatukuyEvent, OutboxRow, pending, ItemRow,
}

abbrev pub id_field : Value → Value
id_field (object (member _ v ms)) = v
id_field v = v

abbrev pub orders_poller : ResolvedPoller
orders_poller = record {
  name = "orders";
  source = "urn:watukuy:orders";
  identity = id_field;
  version = none;
  fingerprint = none;
  schema_version = 1;
  schedule = record {
    min_ms = 1000;
    max_ms = 9000;
    adaptive = true;
    jitter = record { num = 0; den = 1 };
    backoff = record { base_ms = 1000; factor = record { num = 2; den = 1 }; max_ms = 60_000 };
  };
  delivery = record {
    ordering_key = none;
    concurrency = 1;
    retry_attempts = 3;
    retry_backoff = record {
      base_ms = 1000;
      factor = record { num = 2; den = 1 };
      max_ms = 60_000;
    };
    poison_action = park;
    poison_hold_key = false;
    manual_ack = false;
  };
  retain = hash_only;
  on_invalid = quarantine;
  on_schema_change = emit;
  reconcile_every_ms = none;
  max_pages_per_cycle = 10;
  circuit = record { failures = 5; probe_every_ms = 60_000 };
  log_retention_ms = none;
}

abbrev pub order : String → String → Value
order id status = object (member "id" (string id) (member "status" (string status) no_members))

abbrev pub orders_key : PKey
orders_key = record { poller = "orders"; partition = "" }

abbrev pub first_event : WatukuyEvent
first_event = record {
  id = "e1";
  type = created;
  source = "urn:watukuy:orders";
  subject = "o1";
  time = 10;
  poller = "orders";
  partition = "";
  lane = live;
  sequence = 1;
  cursor = null;
  payload = none;
  previous = none;
  attempt = 0;
}

abbrev pub first_row : OutboxRow
first_row = record {
  event_id = "e1";
  sequence = 1;
  event = first_event;
  status = pending;
  attempts = 0;
  next_attempt_at = none;
  last_error = none;
  created_at = 10;
}

abbrev pub order_item : ItemRow
order_item = record {
  identity = "o1";
  version = none;
  hash = "h1";
  schema_version = 1;
  payload = none;
  seen_at = 10;
}

abbrev pub lease_a : Lease
lease_a = record { owner = "a"; epoch = 1; expires_at = 100 }
