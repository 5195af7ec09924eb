-- ===== src/Dispatcher.antt =====
-- src/core/dispatcher.ts: delivery of the outbox. The workers of a round interleave: a worker moves
-- from one `await` of the consumer to the next, and the environment chooses whose turn it is. The
-- consumer, the clock, the random numbers and the signal are the environment's; its state has no
-- part in the store. Hooks and log lines are left out, since `composeHooks` lets no hook throw.
pub mod Groups
pub mod Settle
pub mod Turns
pub mod Outbox
pub mod Endings
pub mod Written
pub mod History
pub mod Exclusive
pub mod Held
pub mod Order
mod Examples
pub mod Round
pub mod Loop
use watukuy.Base.{
  ℕ, zero, suc, ◌+◌, ◌*◌, min, Bool, true, false, not, ◌&&◌, ◌||◌, Option, none, some, String, List,
  [], ◌∷◌, ◌++◌, ltb, leb, nat_eqb, length, filter, elem, if◌then◌else◌, or_else, ◌==◌, string_eq,
}
use watukuy.Base.Map
use watukuy.Base.Map.{Map}
use watukuy.Types.{
  PKey, Lease, ResolvedPoller, WatukuyEvent, OutboxRow, ParkedRow, poison, Attempt, SerializedError,
  Error, is_lease_lost, serialize_error, Result, ok, err, Ratio, PoisonAction, park, halt,
  undefined,
}
use watukuy.Scheduler.{backoff_delay, full}
use watukuy.Store.{MemoryStore, ack_events, record_attempt, park_event}
use watukuy.Store.Queries.{load_pending, held_keys, count_pending}

-- `deliver` is `consumer.deliver` with the time that it takes, `turn n` which of `n` workers is next.
-- The clock stands still between two awaits.
pub record Env (W : Type 0) : Type 0 where
  pub deliver : WatukuyEvent → W → Result (Unit {0}) × W
  pub now : W → ℕ
  pub random : W → Ratio × W
  pub aborted : W → Bool
  pub turn : ℕ → W → ℕ × W

pub record DispatcherDeps : Type 0 where
  pub poller : ResolvedPoller
  pub key : PKey
  pub lease : Lease
  pub dispatch_batch_size : ℕ

pub record DrainResult : Type 0 where
  pub delivered : ℕ
  pub parked : ℕ
  pub failed : ℕ
  pub next_retry_at : Option ℕ
  pub halted : Bool
  pub remaining : ℕ

abbrev pub no_result : DrainResult
no_result = record {
  delivered = 0;
  parked = 0;
  failed = 0;
  next_retry_at = none;
  halted = false;
  remaining = 0;
}

-- The variables of `drainOutbox`; `progress` is that of the round.
pub record Drain (W : Type 0) : Type 0 where
  pub store : MemoryStore
  pub result : DrainResult
  pub blocked : List String
  pub progress : ℕ
  pub world : W

pub record Group : Type 0 where
  pub key : String
  pub rows : List OutboxRow

-- A worker looks for a group, goes through one, or waits for the consumer.
pub data Worker : Type 0 where
  free : Worker
  serving : String → List OutboxRow → Worker
  delivering : String → OutboxRow → List OutboxRow → Worker

unfoldable pub ordering_key : ResolvedPoller → OutboxRow → String
ordering_key poller row = elim poller.delivery.ordering_key [
  | none ↦ row.event.subject
  | some select ↦ select row.event
]

-- `groups.get(k)`, made where it is missing, with the row pushed
unfoldable pub push_row :
    String → OutboxRow → Map String (List OutboxRow) → Map String (List OutboxRow)
push_row k row groups = Map.set k (or_else (Map.get k groups) [] ++ row ∷ []) groups

unfoldable pub group_rows :
    ResolvedPoller → List OutboxRow → Map String (List OutboxRow) → Map String (List OutboxRow)
unfolding ordering_key push_row
group_rows poller [] groups = groups
group_rows poller (row ∷ rows) groups =
    group_rows poller rows (push_row (ordering_key poller row) row groups)

unfoldable pub groups_of : Map String (List OutboxRow) → List Group
groups_of [] = []
groups_of ((k, rows) ∷ m) = record { key = k; rows = rows } ∷ groups_of m

unfoldable pub group_by_ordering_key : ResolvedPoller → List OutboxRow → List Group
unfolding group_rows groups_of
group_by_ordering_key poller rows = groups_of (group_rows poller rows [])

-- The earliest of the retries
unfoldable pub earliest : Option ℕ → ℕ → Option ℕ
earliest none at = some at
earliest (some t) at = some (min t at)

abbrev pub attempted_event : OutboxRow → WatukuyEvent
attempted_event row = record row.event { attempt = row.attempts + 1 }

abbrev pub waits_until : Option ℕ → ℕ → Option ℕ
waits_until none now = none
waits_until (some at) now = if ltb now at then some at else none

abbrev last_failure : Option SerializedError → ℕ → List Attempt
last_failure none at = []
last_failure (some e) at = record { at = at; message = e.frame.message } ∷ []

unfoldable pub parked_row : ResolvedPoller → String → OutboxRow → SerializedError → ℕ → ParkedRow
parked_row poller group_key row error now = record {
  id = row.event_id;
  kind = poison;
  event = some row.event;
  item = undefined;
  error = record {
    error = error;
    history =
        last_failure row.last_error row.created_at
        ++ record { at = now; message = error.frame.message } ∷ [];
    issues = [];
  };
  attempts = row.attempts + 1;
  parked_at = now;
  hold_key = if poller.delivery.poison_hold_key then some group_key else none;
}

abbrev pub is_halt : PoisonAction → Bool
is_halt park = false
is_halt halt = true

module _ {W : Type 0} (env : Env W) (deps : DispatcherDeps) where
  abbrev pub stopped : Drain W → Bool
  stopped d = env.aborted d.world || d.result.halted

  abbrev pub blocking : String → Drain W → Drain W
  blocking k d = record d { blocked = k ∷ d.blocked }

  abbrev pub retry_noted : ℕ → Drain W → Drain W
  retry_noted at d = record d {
    result = record d.result { next_retry_at = earliest d.result.next_retry_at at };
  }

  abbrev pub was_delivered : Drain W → Drain W
  was_delivered d = record d {
    result = record d.result { delivered = d.result.delivered + 1 };
    progress = d.progress + 1;
  }

  abbrev pub was_parked : Drain W → Drain W
  was_parked d = record d {
    result = record d.result { parked = d.result.parked + 1 };
    progress = d.progress + 1;
  }

  abbrev pub with_halt : Drain W → Drain W
  with_halt d = record d { result = record d.result { halted = true } }

  -- After a parking: halt, leave the group, or go on with the next row. `none` is a worker that has
  -- returned.
  unfoldable pub after_parking : String → List OutboxRow → Drain W → Option Worker × Drain W
  after_parking k rows d =
      if is_halt deps.poller.delivery.poison_action
      then (none, with_halt d)
      else if deps.poller.delivery.poison_hold_key
      then (some free, blocking k d)
      else (some (serving k rows), d)

  unfoldable pub after_park_event :
      String
      → List OutboxRow
      → Drain W
      → Result (Unit {0}) × MemoryStore
      → Result (Option Worker) × Drain W
  unfolding after_parking
  after_park_event k rows d (err lost, store) = (err lost, record d { store = store })
  after_park_event k rows d (ok _, store) =
      let next = after_parking k rows (was_parked (record d { store = store })) in
      (ok next.0, next.1)

  unfoldable pub park_poison :
      String → OutboxRow → List OutboxRow → Error → Drain W → Result (Option Worker) × Drain W
  unfolding after_park_event
  park_poison k row rows thrown d =
      let parked = parked_row deps.poller k row (serialize_error thrown) (env.now d.world) in
      after_park_event k rows d (park_event d.store deps.key deps.lease parked)

  abbrev pub was_failed : String → ℕ → Drain W → Drain W
  was_failed k at d =
      blocking k
        (retry_noted at (record d { result = record d.result { failed = d.result.failed + 1 } }))

  -- `nextAttemptAt`, and the random numbers after the draw
  unfoldable pub retry_time : OutboxRow → W → ℕ × W
  retry_time row world =
      let (draw, after) = env.random world in
      (
        env.now after
            + backoff_delay (row.attempts + 1) deps.poller.delivery.retry_backoff draw full,
        after,
      )

  unfoldable pub after_record_attempt :
      String → ℕ → Drain W → Result (Unit {0}) × MemoryStore → Result (Option Worker) × Drain W
  unfolding earliest
  after_record_attempt k at d (err lost, store) = (err lost, record d { store = store })
  after_record_attempt k at d (ok _, store) =
      (ok (some free), was_failed k at (record d { store = store }))

  unfoldable pub schedule_retry :
      String → OutboxRow → Error → Drain W → Result (Option Worker) × Drain W
  unfolding after_record_attempt retry_time
  schedule_retry k row thrown d =
      let (at, world) = retry_time row d.world in
      after_record_attempt k at (record d { world = world })
        (record_attempt d.store deps.key deps.lease row.event_id (some (serialize_error thrown))
          (some at))

  -- The `catch` of a delivery
  unfoldable pub failed_delivery :
      String → OutboxRow → List OutboxRow → Error → Drain W → Result (Option Worker) × Drain W
  unfolding park_poison schedule_retry
  failed_delivery k row rows thrown d =
      if is_lease_lost thrown
      then (err thrown, d)
      else if leb deps.poller.delivery.retry_attempts (row.attempts + 1)
      then park_poison k row rows thrown d
      else schedule_retry k row thrown d

  -- `ackEvents` is inside the `try`, so that its failure is one of the delivery.
  unfoldable pub after_ack_events :
      String
      → OutboxRow
      → List OutboxRow
      → Drain W
      → Result (Unit {0}) × MemoryStore
      → Result (Option Worker) × Drain W
  unfolding failed_delivery
  after_ack_events k row rows d (err thrown, store) =
      failed_delivery k row rows thrown (record d { store = store })
  after_ack_events k row rows d (ok _, store) =
      (ok (some (serving k rows)), was_delivered (record d { store = store }))

  unfoldable pub after_delivery :
      String
      → OutboxRow
      → List OutboxRow
      → Drain W
      → Result (Unit {0}) × W
      → Result (Option Worker) × Drain W
  unfolding after_ack_events failed_delivery
  after_delivery k row rows d (err thrown, world) =
      failed_delivery k row rows thrown (record d { world = world })
  after_delivery k row rows d (ok _, world) =
      after_ack_events k row rows (record d { world = world })
        (ack_events d.store deps.key deps.lease (row.event_id ∷ []))

  unfoldable pub settle :
      String → OutboxRow → List OutboxRow → Drain W → Result (Option Worker) × Drain W
  unfolding after_delivery
  settle k row rows d = after_delivery k row rows d (env.deliver (attempted_event row) d.world)

  -- The next row of a group: one whose retry is not due blocks the group.
  unfoldable pub next_row : String → List OutboxRow → Drain W → Option Worker × Drain W
  unfolding earliest
  next_row k [] d = (some free, d)
  next_row k (row ∷ rows) d =
      if stopped d then (none, d) else elim (waits_until row.next_attempt_at (env.now d.world)) [
        | none ↦ (some (delivering k row rows), d)
        | some at ↦ (some free, blocking k (retry_noted at d))
      ]

  -- `queue.shift()`
  unfoldable pub take_group : List Group → Drain W → Option Worker × List Group
  take_group [] d = (none, [])
  take_group (g ∷ queue) d = ((if stopped d then none else some (serving g.key g.rows)), queue)
