-- ===== src/Dispatcher/Held.antt =====
-- src/core/dispatcher.ts: the ordering key that a turn of a worker keeps back.
use watukuy.Base.{
  ◌+◌, ◌||◌, ◌≤◌, ◌++◌, ◌∙◌, true, false, none, ap, leb, ltb, if◌then◌else◌, ℕ, Option, some,
  String, List, [], ◌∷◌, ◌≡◌, refl, sym, arith, inl, inr, Bool-cases, Option-cases, string_eq,
}
use watukuy.Types.{OutboxRow, Result, ok, err}
use watukuy.Dispatcher.{
  Env, DispatcherDeps, Drain, Group, Worker, free, serving, delivering, stopped, waits_until,
  was_parked, after_parking, attempted_event, next_row, is_halt,
}
use watukuy.Dispatcher.Settle.{
  Settles, accepts, poisons, retries, loses, loses_in, settle-Settles, written, parking,
}
use watukuy.Dispatcher.Round.{step_worker}

module _ {W : Type 0} (env : Env W) (deps : DispatcherDeps) where
  -- The key that a turn has to keep back, told by what the worker meets: a row that waits for its
  -- retry, a delivery that failed and is to be repeated, or one that failed for the last time where the
  -- key of a parked event is held.
  abbrev after_failure : String → OutboxRow → List String
  after_failure k row =
      if leb deps.poller.delivery.retry_attempts (row.attempts + 1)
      then (if is_halt deps.poller.delivery.poison_action
          then []
          else if deps.poller.delivery.poison_hold_key
          then k ∷ []
          else [])
      else k ∷ []

  abbrev after_answer : String → OutboxRow → Result (Unit {0}) → List String
  after_answer k row (ok _) = []
  after_answer k row (err thrown) = after_failure k row

  abbrev while_waiting : String → Option ℕ → ℕ → List String
  while_waiting k none now = []
  while_waiting k (some at) now = if ltb now at then k ∷ [] else []

  abbrev pub keeps_back : Worker → Drain W → List String
  keeps_back free d = []
  keeps_back (serving k []) d = []
  keeps_back (serving k (row ∷ rows)) d =
      if env.aborted d.world || d.result.halted
      then []
      else while_waiting k row.next_attempt_at (env.now d.world)
  keeps_back (delivering k row rows) d =
      after_answer k row (env.deliver (attempted_event row) d.world).0

  abbrev Blocks : List String → Result (Option Worker) × Drain W → Type 0
  Blocks expected (err lost, d) = Unit
  Blocks expected (ok o, d) = d.blocked ≡ expected

  after_parking-blocked :
      (k : String) (rows : List OutboxRow) (d : Drain W)
      → (after_parking env deps k rows d).1.blocked ≡ (
          if is_halt deps.poller.delivery.poison_action
          then d.blocked
          else if deps.poller.delivery.poison_hold_key
          then k ∷ d.blocked
          else d.blocked)
  unfolding after_parking
  after_parking-blocked k rows d = elim (Bool-cases (is_halt deps.poller.delivery.poison_action)) [
    | inl t ↦ rw t refl
    | inr f ↦ rw f (elim (Bool-cases deps.poller.delivery.poison_hold_key) [
      | inl t ↦ rw t refl
      | inr n ↦ rw n refl
    ])
  ]

  parked_keeps :
      (k : String) (row : OutboxRow) (before : List String)
      → deps.poller.delivery.retry_attempts ≤ row.attempts + 1
      → (if is_halt deps.poller.delivery.poison_action
          then before
          else if deps.poller.delivery.poison_hold_key
          then k ∷ before
          else before)
        ≡ after_failure k row ++ before
  parked_keeps k row before late =
      let last : leb deps.poller.delivery.retry_attempts (row.attempts + 1) ≡ true =
        ground (arith, late) in
      rw last (elim (Bool-cases (is_halt deps.poller.delivery.poison_action)) [
        | inl t ↦ rw t refl
        | inr f ↦ rw f (elim (Bool-cases deps.poller.delivery.poison_hold_key) [
          | inl t ↦ rw t refl
          | inr n ↦ rw n refl
        ])
      ])

  answer_of :
      (k : String) (row : OutboxRow) (d : Drain W) (r : Result (Unit {0})) (world : W)
      → env.deliver (attempted_event row) d.world ≡ (r, world)
      → after_answer k row r ++ d.blocked
        ≡ after_answer k row (env.deliver (attempted_event row) d.world).0 ++ d.blocked
  answer_of k row d r world e =
      ap (λ (x : Result (Unit {0}) × W). after_answer k row x.0 ++ d.blocked) (sym e)

  Settles-Blocks :
      (k : String) (row : OutboxRow) (rows : List OutboxRow) (d : Drain W)
      (r : Result (Option Worker) × Drain W)
      → Settles env deps k row rows d r
      → Blocks (keeps_back (delivering k row rows) d ++ d.blocked) r
  Settles-Blocks k row rows d _ (accepts world e a) = answer_of k row d (ok tt) world e
  Settles-Blocks k row rows d _ (poisons world thrown e late a) =
      after_parking-blocked k rows
        (was_parked env deps (written env deps world (parking env deps k row thrown world) d))
      ∙ parked_keeps k row d.blocked late
      ∙ answer_of k row d (err thrown) world e
  Settles-Blocks k row rows d _ (retries world thrown e early a) =
      let not_last : leb deps.poller.delivery.retry_attempts (row.attempts + 1) ≡ false =
        ground (arith, early) in
      let kept_back : k ∷ d.blocked ≡ after_failure k row ++ d.blocked = rw not_last refl in
      kept_back ∙ answer_of k row d (err thrown) world e
  Settles-Blocks k row rows d _ (loses world thrown e) = tt
  Settles-Blocks k row rows d _ (loses_in world thrown w x a) = tt

  not_waiting :
      (k : String) (o : Option ℕ) (now : ℕ) → waits_until o now ≡ none → while_waiting k o now ≡ []
  not_waiting k none now h = refl
  not_waiting k (some at) now h = ground (arith, h)

  still_waiting :
      (k : String) (o : Option ℕ) (now until : ℕ)
      → waits_until o now ≡ some until
      → while_waiting k o now ≡ k ∷ []
  still_waiting k none now until h = absurd (cc h)
  still_waiting k (some at) now until h = ground (arith, h)

  next_row-blocked :
      (k : String) (rows : List OutboxRow) (d : Drain W)
      → (next_row env deps k rows d).1.blocked ≡ keeps_back (serving k rows) d ++ d.blocked
  unfolding next_row
  next_row-blocked k [] d = refl
  next_row-blocked k (row ∷ rows) d = elim (Bool-cases (stopped env deps d)) [
    | inl t ↦ rw t refl
    | inr f ↦ rw f (elim (Option-cases (waits_until row.next_attempt_at (env.now d.world))) [
      | inl n ↦ rw n (ap (λ x. x ++ d.blocked) (sym (not_waiting k row.next_attempt_at _ n)))
      | inr (at, e) ↦
          rw e (ap (λ x. x ++ d.blocked) (sym (still_waiting k row.next_attempt_at _ at e)))
    ])
  ]

  abbrev pub Holds : List String → Result (Option Worker) × Drain W × List Group → Type 0
  Holds expected (r, d, queue) = Blocks expected (r, d)

  pub step_worker-Holds :
      (w : Worker) (d : Drain W) (queue : List Group)
      → Holds (keeps_back w d ++ d.blocked) (step_worker env deps w d queue)
  unfolding step_worker
  step_worker-Holds free d queue = refl
  step_worker-Holds (serving k rows) d queue = next_row-blocked k rows d
  step_worker-Holds (delivering k row rows) d queue =
      Settles-Blocks k row rows d _ (settle-Settles env deps k row rows d)
