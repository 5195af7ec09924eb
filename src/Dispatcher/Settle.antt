-- ===== src/Dispatcher/Settle.antt =====
-- src/core/dispatcher.ts: what becomes of one delivery, as a relation of four outcomes.
use watukuy.Base.{
  ◌+◌, Bool, ◌≤◌, ◌<◌, true, Option, some, String, List, [], ◌∷◌, ◌≡◌, refl, ap, subst, arith, leb,
  leb→le, inl, inr, Bool-cases,
}
use watukuy.Types.{OutboxRow, Error, is_lease_lost, serialize_error, Result, ok, err}
use watukuy.Store.{MemoryStore, lost}
use watukuy.Store.Calls.{Write, write, acks, parks, attempts}
use watukuy.Store.Fencing.{write-record_of}
use watukuy.Dispatcher.{
  Env, DispatcherDeps, Drain, Worker, free, serving, attempted_event, parked_row, was_delivered,
  was_parked, was_failed, retry_time, after_parking, park_poison, schedule_retry, failed_delivery,
  after_park_event, after_record_attempt, after_ack_events, after_delivery, settle,
}

module _ {W : Type 0} (env : Env W) (deps : DispatcherDeps) where
  -- A store write under the drain's lease: its outcome, and the state after it.
  abbrev pub outcome_of : MemoryStore → Write → Result (Unit {0})
  outcome_of s w = (write s deps.key deps.lease w).0

  abbrev pub written : W → Write → Drain W → Drain W
  written world w d = record d { world = world; store = (write d.store deps.key deps.lease w).1 }

  -- The write of a failed delivery, by the number of attempts.
  abbrev pub parking : String → OutboxRow → Error → W → Write
  parking k row thrown world =
      parks (parked_row deps.poller k row (serialize_error thrown) (env.now world))

  abbrev pub retrying : OutboxRow → Error → W → Write
  retrying row thrown world =
      attempts row.event_id (some (serialize_error thrown)) (some (retry_time env deps row world).0)

  -- A delivery of the row, from one state of the environment to another, and the write that it asks
  -- for: an acknowledgement where the consumer accepted the event; where it threw, a parking at the
  -- last attempt and the record of the attempt before.
  pub data Tries (k : String) (row : OutboxRow) (from : W) : W → Write → Type 0 where
    acking :
        (world : W)
        → env.deliver (attempted_event row) from ≡ (ok tt, world)
        → Tries k row from world (acks (row.event_id ∷ []))
    giving_up :
        (world : W) (thrown : Error)
        → env.deliver (attempted_event row) from ≡ (err thrown, world)
        → deps.poller.delivery.retry_attempts ≤ row.attempts + 1
        → Tries k row from world (parking k row thrown world)
    trying_again :
        (world : W) (thrown : Error)
        → env.deliver (attempted_event row) from ≡ (err thrown, world)
        → row.attempts + 1 < deps.poller.delivery.retry_attempts
        → Tries k row from (retry_time env deps row world).1 (retrying row thrown world)

  abbrev pub resumed : Option Worker × Drain W → Result (Option Worker) × Drain W
  resumed (o, d) = (ok o, d)

  -- How a delivery of the row ends: accepted and acknowledged, failed for the last time and parked,
  -- failed and left for a retry, or ended by the loss of the lease.
  pub data Settles (k : String) (row : OutboxRow) (rows : List OutboxRow) (d : Drain W)
      : Result (Option Worker) × Drain W → Type 0 where
    accepts :
        (world : W)
        → env.deliver (attempted_event row) d.world ≡ (ok tt, world)
        → outcome_of d.store (acks (row.event_id ∷ [])) ≡ ok tt
        → Settles k row rows d (
          ok (some (serving k rows)),
          was_delivered env deps (written world (acks (row.event_id ∷ [])) d),
        )
    poisons :
        (world : W) (thrown : Error)
        → env.deliver (attempted_event row) d.world ≡ (err thrown, world)
        → deps.poller.delivery.retry_attempts ≤ row.attempts + 1
        → outcome_of d.store (parking k row thrown world) ≡ ok tt
        → Settles k row rows d (
            resumed (
              after_parking env deps k rows
                (was_parked env deps (written world (parking k row thrown world) d))))
    retries :
        (world : W) (thrown : Error)
        → env.deliver (attempted_event row) d.world ≡ (err thrown, world)
        → row.attempts + 1 < deps.poller.delivery.retry_attempts
        → outcome_of d.store (retrying row thrown world) ≡ ok tt
        → Settles k row rows d (
          ok (some free),
          was_failed env deps k
              (retry_time env deps row world).0
              (written (retry_time env deps row world).1 (retrying row thrown world) d),
        )
    loses :
        (world : W) (thrown : Error)
        → env.deliver (attempted_event row) d.world ≡ (err thrown, world)
        → Settles k row rows d (err thrown, record d { world = world })
    loses_in :
        (world : W) (thrown : Error) (w : Write)
        → Tries k row d.world world w
        → outcome_of d.store w ≡ err thrown
        → Settles k row rows d (err thrown, written world w d)

  abbrev lost_in : Result (Unit {0}) → Bool
  lost_in (ok _) = true
  lost_in (err thrown) = is_lease_lost thrown

  -- A store write that is refused throws `LeaseLostError`.
  refused_lost : (s : MemoryStore) (w : Write) → lost_in (outcome_of s w) ≡ true
  refused_lost s w = rw (write-record_of s deps.key deps.key deps.lease w).0 (ground arith)

  module _ (k : String) (row : OutboxRow) (rows : List OutboxRow) (d : Drain W) where
    parks_it :
        (world : W) (thrown : Error)
        → env.deliver (attempted_event row) d.world ≡ (err thrown, world)
        → deps.poller.delivery.retry_attempts ≤ row.attempts + 1
        → (r : Result (Unit {0}) × MemoryStore)
        → write d.store deps.key deps.lease (parking k row thrown world) ≡ r
        → Settles k row rows d (after_park_event env deps k rows (record d { world = world }) r)
    unfolding after_park_event
    parks_it world thrown e late (ok u, store) h =
        subst
          (λ (s : MemoryStore). Settles k row rows d (
            resumed (
              after_parking env deps k rows
                (was_parked env deps (record d { world = world; store = s })))))
          (ap (λ r. r.1) h) (poisons world thrown e late (ap (λ r. r.0) h))
    parks_it world thrown e late (err lost, store) h =
        subst
          (λ (s : MemoryStore).
            Settles k row rows d (err lost, record d { world = world; store = s }))
          (ap (λ r. r.1) h)
          (loses_in world lost (parking k row thrown world) (giving_up world thrown e late)
            (ap (λ r. r.0) h))

    retries_it :
        (world : W) (thrown : Error)
        → env.deliver (attempted_event row) d.world ≡ (err thrown, world)
        → row.attempts + 1 < deps.poller.delivery.retry_attempts
        → (r : Result (Unit {0}) × MemoryStore)
        → write d.store deps.key deps.lease (retrying row thrown world) ≡ r
        → let (at, after) = retry_time env deps row world in
          Settles k row rows d (after_record_attempt env deps k at (record d { world = after }) r)
    unfolding after_record_attempt
    retries_it world thrown e early (ok u, store) h =
        let (at, after) = retry_time env deps row world in
        subst
          (λ (s : MemoryStore).
            Settles k row rows d
              (ok (some free), was_failed env deps k at (record d { world = after; store = s })))
          (ap (λ r. r.1) h) (retries world thrown e early (ap (λ r. r.0) h))
    retries_it world thrown e early (err lost, store) h =
        let (at, after) = retry_time env deps row world in
        subst
          (λ (s : MemoryStore).
            Settles k row rows d (err lost, record d { world = after; store = s }))
          (ap (λ r. r.1) h)
          (loses_in after lost (retrying row thrown world) (trying_again world thrown e early)
            (ap (λ r. r.0) h))

    failed_delivery-Settles :
        (world : W) (thrown : Error)
        → env.deliver (attempted_event row) d.world ≡ (err thrown, world)
        → Settles k row rows d
            (failed_delivery env deps k row rows thrown (record d { world = world }))
    unfolding failed_delivery park_poison schedule_retry write
    failed_delivery-Settles world thrown e = elim (Bool-cases (is_lease_lost thrown)) [
      | inl t ↦ rw t (loses world thrown e)
      | inr f ↦
          rw f (elim (Bool-cases (leb deps.poller.delivery.retry_attempts (row.attempts + 1))) [
            | inl t ↦ rw t (parks_it world thrown e (leb→le _ _ t) _ refl)
            | inr n ↦ rw n (retries_it world thrown e (ground (arith, n)) _ refl)
          ])
    ]

    acks_it :
        (world : W)
        → env.deliver (attempted_event row) d.world ≡ (ok tt, world)
        → (r : Result (Unit {0}) × MemoryStore)
        → write d.store deps.key deps.lease (acks (row.event_id ∷ [])) ≡ r
        → lost_in r.0 ≡ true
        → Settles k row rows d (after_ack_events env deps k row rows (record d { world = world }) r)
    unfolding after_ack_events failed_delivery
    acks_it world e (ok u, store) h l =
        subst
          (λ (s : MemoryStore). Settles k row rows d (
            ok (some (serving k rows)),
            was_delivered env deps (record d { world = world; store = s }),
          ))
          (ap (λ r. r.1) h) (accepts world e (ap (λ r. r.0) h))
    acks_it world e (err lost, store) h l = rw l (
        subst
          (λ (s : MemoryStore).
            Settles k row rows d (err lost, record d { world = world; store = s }))
          (ap (λ r. r.1) h)
          (loses_in world lost (acks (row.event_id ∷ [])) (acking world e) (ap (λ r. r.0) h)))

    after_delivery-Settles :
        (r : Result (Unit {0}) × W)
        → env.deliver (attempted_event row) d.world ≡ r
        → Settles k row rows d (after_delivery env deps k row rows d r)
    unfolding after_delivery write
    after_delivery-Settles (err thrown, world) e = failed_delivery-Settles world thrown e
    after_delivery-Settles (ok u, world) e =
        acks_it world e _ refl (refused_lost d.store (acks (row.event_id ∷ [])))

    -- Each delivery ends in one of the four ways.
    pub settle-Settles : Settles k row rows d (settle env deps k row rows d)
    unfolding settle
    settle-Settles = after_delivery-Settles (env.deliver (attempted_event row) d.world) refl
