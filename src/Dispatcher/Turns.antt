-- ===== src/Dispatcher/Turns.antt =====
-- src/core/dispatcher.ts: the workers of a round finish, in whatever order they take turns, and what
-- each delivery keeps the round keeps.
use watukuy.Base.{
  ℕ, zero, suc, ◌+◌, ◌*◌, ◌≤◌, ◌<◌, min, Option, none, some, String, List, [], ◌∷◌, ◌≡◌, refl,
  arith, length, All, inl, inr, Bool-cases, Option-cases,
}
use watukuy.Types.{OutboxRow, Result, ok, err}
use watukuy.Dispatcher.{
  Env, DispatcherDeps, Drain, Group, Worker, free, serving, delivering, blocking, retry_noted,
  stopped, waits_until, was_parked, after_parking, next_row, take_group, is_halt,
}
use watukuy.Dispatcher.Settle.{
  Settles, accepts, poisons, retries, loses, loses_in, settle-Settles, written, parking,
}
use watukuy.Dispatcher.Round.{
  Round, kept, step_worker, pick_worker, after_step, step_round, after_turn, run_workers, idle,
  queue_work, run_round,
}

abbrev pub work : Worker → ℕ
work free = 1
work (serving k rows) = 2 * length rows + 2
work (delivering k row rows) = 2 * length rows + 3

abbrev pub works : List Worker → ℕ
works [] = 0
works (w ∷ ws) = work w + works ws

-- What holds of the rows that a worker has, and of those of the queue.
abbrev pub Has : (OutboxRow → Type 0) → Worker → Type 0
Has P free = Unit
Has P (serving k rows) = All P rows
Has P (delivering k row rows) = P row × All P rows

abbrev pub Queues : (OutboxRow → Type 0) → List Group → Type 0
Queues P = All (λ (g : Group). All P g.rows)

module _ {W : Type 0} (env : Env W) (deps : DispatcherDeps) (P : OutboxRow → Type 0) where
  pick_worker-works :
      (n : ℕ) (w : Worker) (ws : List Worker)
      → let r = pick_worker env deps n w ws in work r.0 + works r.1 ≡ works (w ∷ ws)
  unfolding pick_worker
  pick_worker-works n w [] = refl
  pick_worker-works zero w (v ∷ ws) = refl
  pick_worker-works (suc n) w (v ∷ ws) = omega (arith, pick_worker-works n v ws)

  pick_worker-All :
      (n : ℕ) (w : Worker) (ws : List Worker)
      → Has P w
      → All (Has P) ws
      → let r = pick_worker env deps n w ws in Has P r.0 × All (Has P) r.1
  unfolding pick_worker
  pick_worker-All n w [] p h = (p, h)
  pick_worker-All zero w (v ∷ ws) p h = (p, h)
  pick_worker-All (suc n) w (v ∷ ws) p h = let r = pick_worker-All n v ws h.0 h.1 in (r.0, (p, r.1))

  -- What a worker goes on with after a row, whose group has `rows` left.
  abbrev Follows : List OutboxRow → Option Worker → Type 0
  Follows rows o =
      (works (kept o []) ≤ 2 * length rows + 2) × (All P rows → All (Has P) (kept o []))

  abbrev Goes : List OutboxRow → Result (Option Worker) × Drain W → Type 0
  Goes rows (err lost, d) = Unit
  Goes rows (ok o, d) = Follows rows o

  after_parking-Follows :
      (k : String) (rows : List OutboxRow) (d : Drain W)
      → Follows rows (after_parking env deps k rows d).0
  unfolding after_parking
  after_parking-Follows k rows d = elim (Bool-cases (is_halt deps.poller.delivery.poison_action)) [
    | inl t ↦ rw t (omega arith, λ h. tt)
    | inr f ↦ rw f (elim (Bool-cases deps.poller.delivery.poison_hold_key) [
      | inl t ↦ rw t (omega arith, λ h. (tt, tt))
      | inr n ↦ rw n (omega arith, λ h. (h, tt))
    ])
  ]

  Settles-Goes :
      (k : String) (row : OutboxRow) (rows : List OutboxRow) (d : Drain W)
      (r : Result (Option Worker) × Drain W)
      → Settles env deps k row rows d r
      → Goes rows r
  Settles-Goes k row rows d _ (accepts world e a) = (omega arith, λ h. (h, tt))
  Settles-Goes k row rows d _ (poisons world thrown e late a) =
      after_parking-Follows k rows
        (was_parked env deps (written env deps world (parking env deps k row thrown world) d))
  Settles-Goes k row rows d _ (retries world thrown e early a) = (omega arith, λ h. (tt, tt))
  Settles-Goes k row rows d _ (loses world thrown e) = tt
  Settles-Goes k row rows d _ (loses_in world thrown w x a) = tt

  -- A worker that moves has less to do, and only what it was given.
  abbrev Less : ℕ → Result (Option Worker) × Drain W × List Group → Type 0
  Less n (err lost, d, queue) = Unit
  Less n (ok o, d, queue) =
      (works (kept o []) + queue_work env deps queue < n) × All (Has P) (kept o []) × Queues P queue

  settle-Less :
      (k : String) (row : OutboxRow) (rows : List OutboxRow) (queue : List Group)
      (r : Result (Option Worker) × Drain W)
      → Goes rows r
      → All P rows
      → Queues P queue
      → Less (2 * length rows + 3 + queue_work env deps queue) (r.0, r.1, queue)
  settle-Less k row rows queue (err lost, d) g h q = tt
  settle-Less k row rows queue (ok o, d) g h q = (omega (arith, g.0), g.1 h, q)

  next_row-Less :
      (k : String) (rows : List OutboxRow) (d : Drain W) (queue : List Group)
      → All P rows
      → Queues P queue
      → let r = next_row env deps k rows d in
        Less (2 * length rows + 2 + queue_work env deps queue) (ok r.0, r.1, queue)
  unfolding next_row
  next_row-Less k [] d queue h q = (omega arith, (tt, tt), q)
  next_row-Less k (row ∷ rows) d queue h q = elim (Bool-cases (stopped env deps d)) [
    | inl t ↦ rw t (omega arith, tt, q)
    | inr f ↦ rw f (elim (Option-cases (waits_until row.next_attempt_at (env.now d.world))) [
      | inl n ↦ rw n (omega arith, (h, tt), q)
      | inr (at, e) ↦ rw e (omega arith, (tt, tt), q)
    ])
  ]

  take_group-Less :
      (queue : List Group) (d : Drain W)
      → Queues P queue
      → let r = take_group env deps queue d in Less (1 + queue_work env deps queue) (ok r.0, d, r.1)
  unfolding take_group
  take_group-Less [] d q = (omega arith, tt, q)
  take_group-Less (g ∷ queue) d q = elim (Bool-cases (stopped env deps d)) [
    | inl t ↦ rw t (omega arith, tt, q.1)
    | inr f ↦ rw f (omega arith, (q.0, tt), q.1)
  ]

  step_worker-Less :
      (w : Worker) (d : Drain W) (queue : List Group)
      → Has P w
      → Queues P queue
      → Less (work w + queue_work env deps queue) (step_worker env deps w d queue)
  unfolding step_worker
  step_worker-Less free d queue h q = take_group-Less queue d q
  step_worker-Less (serving k rows) d queue h q = next_row-Less k rows d queue h q
  step_worker-Less (delivering k row rows) d queue h q =
      settle-Less k row rows queue _
        (Settles-Goes k row rows d _ (settle-Settles env deps k row rows d)) h.1 q

  -- What holds of the state where a worker throws, and where none does.
  abbrev pub Ends {ℓ} :
      {A : Type ℓ} → (Drain W → Type 0) → (Drain W → Type 0) → Result A × Drain W → Type 0
  Ends J Q (err lost, d) = Q d
  Ends J Q (ok a, d) = J d

  -- What each delivery of a row keeps, and what noting a retry and the choice of a turn keep.
  pub record Keeps (J : Drain W → Type 0) (Q : Drain W → Type 0) : Type 0 where
    pub settled :
        (k : String) (row : OutboxRow) (rows : List OutboxRow) (d : Drain W)
        (r : Result (Option Worker) × Drain W)
        → P row
        → J d
        → Settles env deps k row rows d r
        → Ends J Q r
    pub noted :
        (k : String) (at : ℕ) (d : Drain W)
        → J d
        → J (blocking env deps k (retry_noted env deps at d))
    pub moved : (n : ℕ) (d : Drain W) → J d → J (record d { world = (env.turn n d.world).1 })

  module _ (J Q : Drain W → Type 0) (keeps : Keeps J Q) where
    next_row-Keeps :
        (k : String) (rows : List OutboxRow) (d : Drain W) → J d → J (next_row env deps k rows d).1
    unfolding next_row
    next_row-Keeps k [] d j = j
    next_row-Keeps k (row ∷ rows) d j = elim (Bool-cases (stopped env deps d)) [
      | inl t ↦ rw t j
      | inr f ↦ rw f (elim (Option-cases (waits_until row.next_attempt_at (env.now d.world))) [
        | inl n ↦ rw n j
        | inr (at, e) ↦ rw e (keeps.noted k at d j)
      ])
    ]

    abbrev Moves : Result (Option Worker) × Drain W × List Group → Type 0
    Moves (r, d, queue) = Ends J Q (r, d)

    step_worker-Moves :
        (w : Worker) (d : Drain W) (queue : List Group)
        → Has P w
        → J d
        → Moves (step_worker env deps w d queue)
    unfolding step_worker
    step_worker-Moves free d queue h j = j
    step_worker-Moves (serving k rows) d queue h j = next_row-Keeps k rows d j
    step_worker-Moves (delivering k row rows) d queue h j =
        keeps.settled k row rows d _ h.0 j (settle-Settles env deps k row rows d)

    -- The round after a turn: nearer to its end, or ended.
    abbrev Turned : ℕ → Result (Round W) × Drain W → Type 0
    Turned n (err lost, d) = Q d
    Turned n (ok r, d) =
        (works r.workers + queue_work env deps r.queue < n)
        × All (Has P) r.workers
        × Queues P r.queue
        × J r.drain

    joined :
        (rest : List Worker) (o : Option Worker)
        → (works (kept o rest) ≡ works (kept o []) + works rest)
          × (All (Has P) (kept o []) → All (Has P) rest → All (Has P) (kept o rest))
    joined rest none = (omega arith, λ h k. k)
    joined rest (some w) = (omega arith, λ h k. (h.0, k))

    after_step-Turned :
        (n m : ℕ) (rest : List Worker) (s : Result (Option Worker) × Drain W × List Group)
        → Less m s
        → Moves s
        → m + works rest ≡ n
        → All (Has P) rest
        → Turned n (after_step env deps rest s)
    after_step-Turned n m rest (err lost, e, left) l j p a = j
    after_step-Turned n m rest (ok o, e, left) l j p a =
        let both = joined rest o in (omega (arith, both.0, l.0, p), both.1 l.1 a, l.2, j)

    step_round-Turned :
        (w : Worker) (ws : List Worker) (d : Drain W) (queue : List Group)
        → All (Has P) (w ∷ ws)
        → Queues P queue
        → J d
        → Turned (works (w ∷ ws) + queue_work env deps queue) (step_round env deps w ws d queue)
    unfolding step_round
    step_round-Turned w ws d queue h q j =
        let (n, world) = env.turn (length (w ∷ ws)) d.world in
        let r = pick_worker env deps n w ws in
        let own = pick_worker-All n w ws h.0 h.1 in
        let e : Drain W = record d { world = world } in
        after_step-Turned _ (work r.0 + queue_work env deps queue) r.1 _
          (step_worker-Less r.0 e queue own.0 q)
          (step_worker-Moves r.0 e queue own.0 (keeps.moved (length (w ∷ ws)) d j))
          (omega (arith, pick_worker-works n w ws)) own.1

    abbrev pub Finishes : Option (Result (Unit {0}) × Drain W) → Type 0
    Finishes o = (r : Result (Unit {0}) × Drain W) × (o ≡ some r) × Ends J Q r

    run_on :
        (fuel n : ℕ)
        → ((ws : List Worker) (d : Drain W) (queue : List Group)
            → works ws + queue_work env deps queue < fuel
            → All (Has P) ws
            → Queues P queue
            → J d
            → Finishes (run_workers env deps fuel ws d queue))
        → (s : Result (Round W) × Drain W) → n < suc fuel
        → Turned n s
        → Finishes (
            after_turn env deps s
              (λ (r : Round W). run_workers env deps fuel r.workers r.drain r.queue))
    run_on fuel n ih (err lost, e) l t = ((err lost, e), refl, t)
    run_on fuel n ih (ok r, e) l t =
        ih r.workers r.drain r.queue (omega (arith, l, t.0)) t.1 t.2 t.3

    run_workers-Finishes :
        (fuel : ℕ) (ws : List Worker) (d : Drain W) (queue : List Group)
        → works ws + queue_work env deps queue < fuel
        → All (Has P) ws
        → Queues P queue
        → J d
        → Finishes (run_workers env deps fuel ws d queue)
    unfolding run_workers
    run_workers-Finishes zero ws d queue l h q j = absurd (omega arith)
    run_workers-Finishes (suc fuel) [] d queue l h q j = ((ok tt, d), refl, j)
    run_workers-Finishes (suc fuel) (w ∷ ws) d queue l h q j =
        run_on fuel _ (run_workers-Finishes fuel) (step_round env deps w ws d queue) l
          (step_round-Turned w ws d queue h q j)

    idle-Has : (n : ℕ) → (works (idle env deps n) ≡ n) × All (Has P) (idle env deps n)
    idle-Has zero = (refl, tt)
    idle-Has (suc n) = let r = idle-Has n in (omega (arith, r.0), (tt, r.1))

    -- A round ends, with what each of its deliveries keeps.
    pub run_round-Finishes :
        (groups : List Group) (d : Drain W)
        → Queues P groups
        → J (record d { progress = 0 })
        → Finishes (run_round env deps groups d)
    unfolding run_round
    run_round-Finishes groups d q j =
        let n = min deps.poller.delivery.concurrency (length groups) in
        let none_yet = idle-Has n in
        run_workers-Finishes (suc (n + queue_work env deps groups)) (idle env deps n) _ groups
          (omega (arith, none_yet.0)) none_yet.1 q j
