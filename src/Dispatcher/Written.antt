-- ===== src/Dispatcher/Written.antt =====
-- src/core/dispatcher.ts: a drain as the deliveries that it made, each from the state in which the drain
-- was, and the writes that they asked for.
use watukuy.Base.{
  subst, ℕ, ◌+◌, Option, String, List, [], ◌∷◌, ◌++◌, ◌≡◌, refl, sym, ◌∙◌, arith, In, inl, inr,
  Bool-cases, string_eq,
}
use watukuy.Types.{OutboxRow, Error, Result, ok, err, pkey_eq}
use watukuy.Store.{MemoryStore}
use watukuy.Store.Calls.{Write, acks, parks, attempts, write}
use watukuy.Store.Queries.{load_pending}
use watukuy.Dispatcher.{
  Env, DispatcherDeps, Drain, DrainResult, Worker, attempted_event, after_parking, was_parked,
  was_delivered, was_failed, retry_time, is_halt,
}
use watukuy.Dispatcher.Settle.{
  Settles, accepts, poisons, retries, loses, loses_in, Tries, acking, giving_up, trying_again,
  outcome_of, written, parking, retrying,
}
use watukuy.Dispatcher.Turns.{Keeps, Ends}

-- The numbers of acknowledgements, of parkings and of recorded attempts among the writes.
abbrev pub is_ack : Write → ℕ
is_ack (acks ids) = 1
is_ack _ = 0

abbrev pub is_parking : Write → ℕ
is_parking (parks row) = 1
is_parking _ = 0

abbrev pub is_attempt : Write → ℕ
is_attempt (attempts id error at) = 1
is_attempt _ = 0

-- A delivery that the store took note of: the row, the state of the environment in which it was
-- handed to the consumer, and the write.
pub record Delivery (W : Type 0) : Type 0 where
  pub row : OutboxRow
  pub at : W
  pub write : Write

abbrev pub count : {W : Type 0} → (Write → ℕ) → List (Delivery W) → ℕ
count one [] = 0
count one (e ∷ es) = one e.write + count one es

count-snoc :
    {W : Type 0} (one : Write → ℕ) (es : List (Delivery W)) (e : Delivery W)
    → count one (es ++ e ∷ []) ≡ count one es + one e.write
count-snoc one [] e = omega arith
count-snoc one (x ∷ es) e = omega (arith, count-snoc one es e)

abbrev pub Counts : {W : Type 0} → List (Delivery W) → DrainResult → Type 0
Counts es r =
    (r.delivered ≡ count is_ack es)
    × (r.parked ≡ count is_parking es)
    × (r.failed ≡ count is_attempt es)

module _ {W : Type 0} (env : Env W) (deps : DispatcherDeps) (s : MemoryStore) (w : W) where
  -- What a drain has done so far: its deliveries, the slice that it loaded last, and the store and
  -- the environment as it has left them. A step is a load from that store, the choice of a turn, or
  -- the delivery of a row of the slice, in that environment, with the write that it asks for. The
  -- write is granted, or refused; or the consumer threw the loss of the lease, and nothing is written.
  pub data Drained : List (Delivery W) → List OutboxRow → MemoryStore → W → Type 0 where
    starts : Drained [] [] s w
    yields :
        {es : List (Delivery W)} {slice : List OutboxRow} {t : MemoryStore} {v : W}
        → Drained es slice t v
        → (n : ℕ) → Drained es slice t (env.turn n v).1
    loads :
        {es : List (Delivery W)} {slice : List OutboxRow} {t : MemoryStore} {v : W}
        → Drained es slice t v
        → (n : ℕ) → Drained es (load_pending t deps.key n) t v
    gives_up :
        {es : List (Delivery W)} {slice : List OutboxRow} {t : MemoryStore} {v : W}
        → Drained es slice t v
        → (row : OutboxRow) → In row slice
        → (world : W) (thrown : Error) → env.deliver (attempted_event row) v ≡ (err thrown, world)
        → Drained es slice t world
    stores :
        {es : List (Delivery W)} {slice : List OutboxRow} {t : MemoryStore} {v : W}
        → Drained es slice t v
        → (k : String) (row : OutboxRow) → In row slice
        → (world : W) (x : Write) → Tries env deps k row v world x
        → outcome_of env deps t x ≡ ok tt
        → Drained
            (es ++ record { row = row; at = v; write = x } ∷ [])
            slice
            (write t deps.key deps.lease x).1
            world
    is_refused :
        {es : List (Delivery W)} {slice : List OutboxRow} {t : MemoryStore} {v : W}
        → Drained es slice t v
        → (k : String) (row : OutboxRow) → In row slice
        → (world : W) (x : Write) → Tries env deps k row v world x
        → (thrown : Error) → outcome_of env deps t x ≡ err thrown
        → Drained es slice (write t deps.key deps.lease x).1 world

  -- The state of a drain, with its deliveries, which it counts.
  abbrev pub History : List OutboxRow → Drain W → Type 0
  History slice d = (es : List (Delivery W)) × Drained es slice d.store d.world × Counts es d.result

  -- Where the lease is lost, the counters are not reported.
  abbrev pub Record : List OutboxRow → Drain W → Type 0
  Record slice d = (es : List (Delivery W)) × Drained es slice d.store d.world

  -- One more write, which was granted.
  abbrev Written : List OutboxRow → Drain W → W → Write → DrainResult → Type 0
  Written slice d world x r =
      (es : List (Delivery W)) × Drained es slice (written env deps world x d).store world
      × Counts es r

  one_more :
      (slice : List OutboxRow) (d : Drain W) (k : String) (row : OutboxRow) (world : W) (x : Write)
      (r : DrainResult)
      → History slice d
      → In row slice
      → Tries env deps k row d.world world x
      → outcome_of env deps d.store x ≡ ok tt
      → r.delivered ≡ d.result.delivered + is_ack x
      → r.parked ≡ d.result.parked + is_parking x
      → r.failed ≡ d.result.failed + is_attempt x
      → Written slice d world x r
  one_more slice d k row world x r (es, h, n) i t a p q f =
      let e : Delivery W = record { row = row; at = d.world; write = x } in
      (
        es ++ e ∷ [],
        stores h k row i world x t a,
        (
          omega (arith, count-snoc is_ack es e, n.0, p),
          omega (arith, count-snoc is_parking es e, n.1, q),
          omega (arith, count-snoc is_attempt es e, n.2, f),
        ),
      )

  -- What follows a parking changes neither the store nor the counters.
  after_parking-same :
      (k : String) (rows : List OutboxRow) (d : Drain W)
      → let e = (after_parking env deps k rows d).1 in
        (e.store ≡ d.store)
        × (e.world ≡ d.world)
        × (e.result.delivered ≡ d.result.delivered)
        × (e.result.parked ≡ d.result.parked)
        × (e.result.failed ≡ d.result.failed)
  unfolding after_parking
  after_parking-same k rows d = elim (Bool-cases (is_halt deps.poller.delivery.poison_action)) [
    | inl t ↦ rw t (refl, refl, refl, refl, refl)
    | inr f ↦ rw f (elim (Bool-cases deps.poller.delivery.poison_hold_key) [
      | inl t ↦ rw t (refl, refl, refl, refl, refl)
      | inr n ↦ rw n (refl, refl, refl, refl, refl)
    ])
  ]

  after_parking-History :
      (slice : List OutboxRow) (k : String) (rows : List OutboxRow) (d : Drain W)
      → History slice d
      → History slice (after_parking env deps k rows d).1
  after_parking-History slice k rows d (es, h, n) =
      let e = (after_parking env deps k rows d).1 in
      let (store, world, x, y, z) = after_parking-same k rows d in
      (
        es,
        subst (λ (v : W). Drained es slice e.store v) (sym world)
            (subst (λ (t : MemoryStore). Drained es slice t d.world) (sym store) h),
        (x ∙ n.0, y ∙ n.1, z ∙ n.2),
      )

  Settles-History :
      (slice : List OutboxRow) (k : String) (row : OutboxRow) (rows : List OutboxRow) (d : Drain W)
      (r : Result (Option Worker) × Drain W)
      → In row slice
      → History slice d
      → Settles env deps k row rows d r
      → Ends env deps (λ x. In x slice) (History slice) (Record slice) r
  Settles-History slice k row rows d _ i j (accepts world e a) =
      one_more slice d k row world (acks (row.event_id ∷ [])) (was_delivered env deps d).result j i
        (acking world e) a (omega arith) (omega arith) (omega arith)
  Settles-History slice k row rows d _ i j (poisons world thrown e late a) =
      let x = parking env deps k row thrown world in
      after_parking-History slice k rows (was_parked env deps (written env deps world x d)) (
        one_more slice d k row world x (was_parked env deps d).result j i
          (giving_up world thrown e late) a (omega arith) (omega arith) (omega arith))
  Settles-History slice k row rows d _ i j (retries world thrown e early a) =
      let (at, after) = retry_time env deps row world in
      one_more slice d k row after (retrying env deps row thrown world)
        (was_failed env deps k at d).result j i (trying_again world thrown e early) a (omega arith)
        (omega arith) (omega arith)
  Settles-History slice k row rows d _ i j (loses world thrown e) =
      (j.0, gives_up j.1 row i world thrown e)
  Settles-History slice k row rows d _ i j (loses_in world thrown x t a) =
      (j.0, is_refused j.1 k row i world x t thrown a)

  pub History-Keeps :
      (slice : List OutboxRow) → Keeps env deps (λ x. In x slice) (History slice) (Record slice)
  History-Keeps slice = record {
    settled = Settles-History slice;
    noted = λ k at d j. j;
    moved = λ n d j. (j.0, yields j.1 n, j.2);
  }
