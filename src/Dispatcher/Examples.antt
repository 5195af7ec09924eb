-- ===== src/Dispatcher/Examples.antt =====
-- Drains of src/core/dispatcher.ts at a concrete outbox, and its theorems there.
use watukuy.Base.{
  ◌++◌, ℕ, ◌+◌, ◌≡◌, ◌⊎◌, refl, true, false, Option, none, some, List, [], ◌∷◌, if◌then◌else◌, ◌==◌,
  string_eq, All, In, Some, elem,
}
use watukuy.Base.Map
use watukuy.Types.{OutboxRow, WatukuyEvent, Result, ok, err, handler, pkey_eq}
use watukuy.Types.Samples.{orders_poller, orders_key, first_event, first_row, lease_a}
use watukuy.Scheduler.{backoff_delay}
use watukuy.Store.{MemoryStore, record_of, ack_events, record_attempt}
use watukuy.Store.Queries.{load_pending, held_keys, count_pending}
use watukuy.Store.Rows.{empty_record}
use watukuy.Store.Delivery.{Queued}
use watukuy.Dispatcher.{
  free, serving, Env, DispatcherDeps, Drain, DrainResult, Group, ordering_key,
  group_by_ordering_key,
}
use watukuy.Dispatcher.Round.{run_round, step_round}
use watukuy.Dispatcher.Order.{Reaches, begins, turns, Reaches-IsExclusive}
use watukuy.Dispatcher.Exclusive.{IsExclusive}
use watukuy.Dispatcher.Loop.{drain_outbox, start, deliverable}
use watukuy.Dispatcher.Groups.{group_by_ordering_key_lem, of_key, group_key}
use watukuy.Dispatcher.Endings.{drain_outbox-Returns}
use watukuy.Dispatcher.Outbox.{IsOutbox}
use watukuy.Dispatcher.History.{drain_outbox-History, drain_outbox-Queued, Reports, IsDecided}
use watukuy.Dispatcher.Written.{Delivery, Drained}

-- The world is the clock; each delivery takes a millisecond, and the consumer refuses one order.
abbrev world : Env ℕ
world = record {
  deliver = λ (e : WatukuyEvent) (t : ℕ).
      (if e.subject == "bad" then err (handler "boom") else ok tt, t + 1);
  now = λ t. t;
  random = λ t. (record { num = 1; den = 2 }, t);
  aborted = λ t. false;
  turn = λ n t. (0, t);
}

abbrev deps : DispatcherDeps
deps = record {
  poller = orders_poller;
  key = orders_key;
  lease = lease_a;
  dispatch_batch_size = 50;
}

abbrev refused_row : OutboxRow
refused_row = record first_row {
  event_id = "e2";
  sequence = 2;
  event = record first_event { id = "e2"; subject = "bad"; sequence = 2 };
}

abbrev later_row : OutboxRow
later_row = record first_row {
  event_id = "e3";
  sequence = 3;
  event = record first_event { id = "e3"; sequence = 3 };
}

abbrev queued : MemoryStore
queued = record {
  records =
      (
        orders_key,
        record empty_record {
          lease = some lease_a;
          epoch_counter = 1;
          outbox = ("e1", first_row) ∷ ("e2", refused_row) ∷ ("e3", later_row) ∷ [];
        },
      )
      ∷ [];
}

filed : IsOutbox (record_of queued orders_key).outbox
unfolding record_of Map.get
filed = ((refl, refl), ((refl, refl), ((refl, refl), tt)))

-- How that drain ends.
abbrev ended :
    (r : Result DrainResult × Drain ℕ) × (drain_outbox world deps true queued 20 ≡ some r)
ended = drain_outbox-Returns world deps true queued 20 filed

group_by_ordering_key_example :
    let groups = group_by_ordering_key orders_poller (first_row ∷ refused_row ∷ later_row ∷ []) in
    All
      (λ (g : Group).
        g.rows ≡ of_key orders_poller g.key (first_row ∷ refused_row ∷ later_row ∷ []))
      groups
    × Map.Distinct (group_key orders_poller) groups
    × ((r : OutboxRow)
        → In r (first_row ∷ refused_row ∷ later_row ∷ [])
        → Some (λ (g : Group). g.key ≡ ordering_key orders_poller r) groups)
group_by_ordering_key_example =
    group_by_ordering_key_lem orders_poller (first_row ∷ refused_row ∷ later_row ∷ [])

drain_outbox-Returns_example :
    (r : Result DrainResult × Drain ℕ) × (drain_outbox world deps true queued 20 ≡ some r)
drain_outbox-Returns_example = drain_outbox-Returns world deps true queued 20 filed

-- The first and the third event are accepted, the second waits for its retry.
abbrev drained : DrainResult
drained = record {
  delivered = 2;
  parked = 0;
  failed = 1;
  next_retry_at = some 523;
  halted = false;
  remaining = 1;
}

abbrev result_of : Option (Result DrainResult × Drain ℕ) → Option DrainResult
result_of (some (ok r, d)) = some r
result_of _ = none

drains : result_of (drain_outbox world deps true queued 20) ≡ some drained
unfolding drain_outbox record_of Map.get load_pending Map.set elem held_keys run_round ack_events
    record_attempt Map.delete_all Map.delete backoff_delay count_pending
drains = refl

drain_outbox-History_example :
    (es : List (Delivery ℕ)) × (slice : List OutboxRow) × Drained world deps queued 20 es slice
      ended.0.1.store ended.0.1.world
    × Reports world deps queued 20 es ended.0
drain_outbox-History_example = drain_outbox-History world deps queued 20 true ended.0 ended.1

drain_outbox-Queued_example :
    (es : List (Delivery ℕ)) × (slice : List OutboxRow) × Drained world deps queued 20 es slice
      ended.0.1.store ended.0.1.world
    × (Queued "e2" (record_of ended.0.1.store orders_key) ⊎ IsDecided world deps queued 20 "e2" es)
unfolding record_of Map.get
drain_outbox-Queued_example =
    drain_outbox-Queued world deps queued 20 true ended.0 "e2" ended.1 refl

-- A slice whose rows all wait for a retry ends the drain before the window widens: the third event,
-- of another key, is not delivered, though nothing holds it back.
abbrev waiting : MemoryStore
waiting = record {
  records =
      (
        orders_key,
        record empty_record {
          lease = some lease_a;
          epoch_counter = 1;
          outbox =
              ("e2", record refused_row { attempts = 1; next_attempt_at = some 1000 })
              ∷ ("e3", later_row)
              ∷ [];
        },
      )
      ∷ [];
}

starves :
    result_of (drain_outbox world (record deps { dispatch_batch_size = 1 }) true waiting 20)
    ≡ some (record {
      delivered = 0;
      parked = 0;
      failed = 0;
      next_retry_at = some 1000;
      halted = false;
      remaining = 2;
    })
unfolding drain_outbox record_of Map.get load_pending Map.set elem held_keys run_round ack_events
    record_attempt Map.delete_all Map.delete backoff_delay count_pending
starves = refl

abbrev before : Drain ℕ
before = start world deps queued 20

abbrev slice : List OutboxRow
slice = first_row ∷ refused_row ∷ later_row ∷ []

abbrev refused_group : Group
refused_group = record { key = "bad"; rows = refused_row ∷ [] }

-- Two workers, after the turn of one.
one_turn :
    Reaches world deps before
      (deliverable world deps slice before)
      (serving "o1" (first_row ∷ later_row ∷ []) ∷ free ∷ [])
      []
      before
      (refused_group ∷ [])
unfolding deliverable step_round Map.get Map.set elem held_keys record_of
one_turn =
    turns (begins 2)
      (record {
        drain = before;
        queue = refused_group ∷ [];
        workers = serving "o1" (first_row ∷ later_row ∷ []) ∷ free ∷ [];
      })
      before refl

Reaches-IsExclusive_example :
    (before.blocked ≡ [] ++ before.blocked)
    × IsExclusive
        (serving "o1" (first_row ∷ later_row ∷ []) ∷ free ∷ [])
        ([] ++ before.blocked)
        (refused_group ∷ [])
Reaches-IsExclusive_example =
    Reaches-IsExclusive world deps slice before before
      (serving "o1" (first_row ∷ later_row ∷ []) ∷ free ∷ []) [] (refused_group ∷ []) one_turn
