-- ===== src/Dispatcher/Round.antt =====
-- src/core/dispatcher.ts: the workers of one round.
use watukuy.Base.{ℕ, zero, suc, ◌+◌, ◌*◌, min, Option, none, some, List, [], ◌∷◌, length}
use watukuy.Types.{Result, ok, err}
use watukuy.Dispatcher.{
  Env, DispatcherDeps, Drain, Group, Worker, free, serving, delivering, settle, next_row,
  take_group,
}

-- What the workers of a round share.
pub record Round (W : Type 0) : Type 0 where
  pub drain : Drain W
  pub queue : List Group
  pub workers : List Worker

abbrev pub kept : Option Worker → List Worker → List Worker
kept none ws = ws
kept (some w) ws = w ∷ ws

module _ {W : Type 0} (env : Env W) (deps : DispatcherDeps) where
  -- One worker, between two turns of the event loop: its new form, or `none` where it has returned.
  unfoldable pub step_worker :
      Worker → Drain W → List Group → Result (Option Worker) × Drain W × List Group
  unfolding settle next_row take_group
  step_worker free d queue = let r = take_group env deps queue d in (ok r.0, d, r.1)
  step_worker (serving k rows) d queue = let r = next_row env deps k rows d in (ok r.0, r.1, queue)
  step_worker (delivering k row rows) d queue =
      let r = settle env deps k row rows d in (r.0, r.1, queue)

  -- The worker whose turn it is, and the others; the last one, where the number is too large.
  unfoldable pub pick_worker : ℕ → Worker → List Worker → Worker × List Worker
  pick_worker n w [] = (w, [])
  pick_worker zero w (v ∷ ws) = (w, v ∷ ws)
  pick_worker (suc n) w (v ∷ ws) = let r = pick_worker n v ws in (r.0, w ∷ r.1)

  abbrev pub after_step :
      List Worker → Result (Option Worker) × Drain W × List Group → Result (Round W) × Drain W
  after_step rest (err lost, d, queue) = (err lost, d)
  after_step rest (ok o, d, queue) =
      (ok (record { drain = d; queue = queue; workers = kept o rest }), d)

  -- The worker that the environment chooses moves.
  unfoldable pub step_round :
      Worker → List Worker → Drain W → List Group → Result (Round W) × Drain W
  unfolding step_worker pick_worker
  step_round w ws d queue =
      let (n, world) = env.turn (length (w ∷ ws)) d.world in
      let r = pick_worker n w ws in
      after_step r.1 (step_worker r.0 (record d { world = world }) queue)

  abbrev pub after_turn :
      Result (Round W) × Drain W
      → (Round W → Option (Result (Unit {0}) × Drain W))
      → Option (Result (Unit {0}) × Drain W)
  after_turn (err lost, d) more = some (err lost, d)
  after_turn (ok next, d) more = more next

  -- `await Promise.all(workers)`: it ends where every worker has returned, or where one throws.
  unfoldable pub run_workers :
      ℕ → List Worker → Drain W → List Group → Option (Result (Unit {0}) × Drain W)
  unfolding step_round
  run_workers zero ws d queue = none
  run_workers (suc fuel) [] d queue = some (ok tt, d)
  run_workers (suc fuel) (w ∷ ws) d queue =
      after_turn (step_round w ws d queue)
        (λ (r : Round W). run_workers fuel r.workers r.drain r.queue)

  abbrev pub idle : ℕ → List Worker
  idle zero = []
  idle (suc n) = free ∷ idle n

  -- Two turns for a row, two for a group, one for a worker.
  abbrev pub queue_work : List Group → ℕ
  queue_work [] = 0
  queue_work (g ∷ queue) = 2 * length g.rows + 2 + queue_work queue

  unfoldable pub run_round : List Group → Drain W → Option (Result (Unit {0}) × Drain W)
  unfolding run_workers
  run_round groups d =
      let n = min deps.poller.delivery.concurrency (length groups) in
      run_workers (suc (n + queue_work groups)) (idle n) (record d { progress = 0 }) groups
