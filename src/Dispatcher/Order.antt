-- ===== src/Dispatcher/Order.antt =====
-- src/core/dispatcher.ts: the events of one ordering key are delivered one at a time, in their order,
-- and none once the key is blocked.
use watukuy.Base.{
  ◌++◌, ◌∙◌, ap, ℕ, zero, suc, Bool, not, ◌&&◌, Option, some, String, List, [], ◌∷◌, ◌≡◌, ◌≢◌, refl,
  sym, subst, arith, length, All, All-filter, filter, inl, inr, Bool-cases, Option-cases, elem,
  string_eq,
}
use watukuy.Base.Map
use watukuy.Types.{OutboxRow, Result, ok, err}
use watukuy.Dispatcher.{
  Env, DispatcherDeps, Drain, Group, Worker, free, serving, delivering, stopped, waits_until,
  was_parked, after_parking, next_row, take_group, is_halt,
}
use watukuy.Dispatcher.Groups.{group_by_ordering_key_lem, group_key}
use watukuy.Dispatcher.Settle.{
  Settles, accepts, poisons, retries, loses, loses_in, settle-Settles, written, parking,
}
use watukuy.Dispatcher.Round.{Round, kept, step_worker, pick_worker, after_step, step_round, idle}
use watukuy.Dispatcher.Loop.{deliverable, open_groups}
use watukuy.Dispatcher.Held.{keeps_back, Holds, step_worker-Holds}
use watukuy.Dispatcher.Exclusive.{
  key_of, Differ, Differ-sym, Apart, Unblocked, Several, IsExclusive, Stays, drop_group, no_key,
  no_key_queue, moved-IsExclusive,
}

module _ {W : Type 0} (env : Env W) (deps : DispatcherDeps) where
  abbrev Leaves : String → List String → Result (Option Worker) × Drain W → Type 0
  Leaves k before (err lost, d) = Unit
  Leaves k before (ok o, d) = Stays k before o d.blocked

  after_parking-Stays :
      (k : String) (rows : List OutboxRow) (d : Drain W)
      → let r = after_parking env deps k rows d in Stays k d.blocked r.0 r.1.blocked
  unfolding after_parking
  after_parking-Stays k rows d = elim (Bool-cases (is_halt deps.poller.delivery.poison_action)) [
    | inl t ↦ rw t (inl refl)
    | inr f ↦ rw f (elim (Bool-cases deps.poller.delivery.poison_hold_key) [
      | inl t ↦ rw t (inr (refl, refl))
      | inr n ↦ rw n (inl (refl, inr refl))
    ])
  ]

  Settles-Leaves :
      (k : String) (row : OutboxRow) (rows : List OutboxRow) (d : Drain W)
      (r : Result (Option Worker) × Drain W)
      → Settles env deps k row rows d r
      → Leaves k d.blocked r
  Settles-Leaves k row rows d _ (accepts world e a) = inl (refl, inr refl)
  Settles-Leaves k row rows d _ (poisons world thrown e late a) =
      after_parking-Stays k rows
        (was_parked env deps (written env deps world (parking env deps k row thrown world) d))
  Settles-Leaves k row rows d _ (retries world thrown e early a) = inr (refl, refl)
  Settles-Leaves k row rows d _ (loses world thrown e) = tt
  Settles-Leaves k row rows d _ (loses_in world thrown w x a) = tt

  next_row-Stays :
      (k : String) (rows : List OutboxRow) (d : Drain W)
      → let r = next_row env deps k rows d in Stays k d.blocked r.0 r.1.blocked
  unfolding next_row
  next_row-Stays k [] d = inl (refl, inl refl)
  next_row-Stays k (row ∷ rows) d = elim (Bool-cases (stopped env deps d)) [
    | inl t ↦ rw t (inl refl)
    | inr f ↦ rw f (elim (Option-cases (waits_until row.next_attempt_at (env.now d.world))) [
      | inl n ↦ rw n (inl (refl, inr refl))
      | inr (at, e) ↦ rw e (inr (refl, refl))
    ])
  ]

  pick-All :
      (P : Worker → Type 0) (n : ℕ) (w : Worker) (ws : List Worker)
      → P w
      → All P ws
      → let r = pick_worker env deps n w ws in P r.0 × All P r.1
  unfolding pick_worker
  pick-All P n w [] p h = (p, h)
  pick-All P zero w (v ∷ ws) p h = (p, h)
  pick-All P (suc n) w (v ∷ ws) p h = let r = pick-All P n v ws h.0 h.1 in (r.0, (p, r.1))

  pick-Apart :
      (n : ℕ) (w : Worker) (ws : List Worker) (queue : List Group)
      → Apart (w ∷ ws) queue
      → let r = pick_worker env deps n w ws in Apart (r.0 ∷ r.1) queue
  unfolding pick_worker
  pick-Apart n w [] queue a = a
  pick-Apart zero w (v ∷ ws) queue a = a
  pick-Apart (suc n) w (v ∷ ws) queue (from, away, rest) =
      let r = pick_worker env deps n v ws in
      let (own, clear, more) = pick-Apart n v ws queue rest in
      let (d, ds) = pick-All (λ u. Differ (key_of w) (key_of u)) n v ws from.0 from.1 in
      ((Differ-sym (key_of w) (key_of r.0) d, own), clear, (ds, away, more))

  taken-IsExclusive :
      (rest : List Worker) (queue : List Group) (d : Drain W)
      → IsExclusive (free ∷ rest) d.blocked queue
      → let r = take_group env deps queue d in IsExclusive (kept r.0 rest) d.blocked r.1
  unfolding take_group
  taken-IsExclusive rest [] d (p, s, u, uq) = (p.2, s, u.1, uq)
  taken-IsExclusive rest (g ∷ queue) d (p, s, u, uq) =
      let (apart, clear) = drop_group rest g queue p.2 in
      elim (Bool-cases (stopped env deps d)) [
        | inl t ↦ rw t (apart, s.1, u.1, uq.1)
        | inr f ↦ rw f ((clear, s.0, apart), s.1, (uq.0, u.1), uq.1)
      ]

  abbrev Next : List Worker → Result (Option Worker) × Drain W × List Group → Type 0
  Next rest (err lost, d, queue) = Unit
  Next rest (ok o, d, queue) = IsExclusive (kept o rest) d.blocked queue

  settled-Next :
      (k : String) (row : OutboxRow) (rows : List OutboxRow) (rest : List Worker)
      (before : List String) (queue : List Group) (r : Result (Option Worker) × Drain W)
      → IsExclusive (delivering k row rows ∷ rest) before queue
      → Leaves k before r
      → Next rest (r.0, r.1, queue)
  settled-Next k row rows rest before queue (err lost, d) x l = tt
  settled-Next k row rows rest before queue (ok o, d) (p, s, u, uq) l =
      moved-IsExclusive k before d.blocked o rest queue p s u.0 u.1 uq l

  step_worker-Next :
      (w : Worker) (rest : List Worker) (d : Drain W) (queue : List Group)
      → IsExclusive (w ∷ rest) d.blocked queue
      → Next rest (step_worker env deps w d queue)
  unfolding step_worker
  step_worker-Next free rest d queue x = taken-IsExclusive rest queue d x
  step_worker-Next (serving k rows) rest d queue (p, s, u, uq) =
      moved-IsExclusive k d.blocked _ _ rest queue p s u.0 u.1 uq (next_row-Stays k rows d)
  step_worker-Next (delivering k row rows) rest d queue x =
      settled-Next k row rows rest d.blocked queue _ x
        (Settles-Leaves k row rows d _ (settle-Settles env deps k row rows d))

  -- The worker whose turn it is keeps back its key, if it has to.
  abbrev pub turn_keeps : Worker → List Worker → Drain W → List String
  turn_keeps w ws d =
      let (n, world) = env.turn (length (w ∷ ws)) d.world in
      keeps_back env deps (pick_worker env deps n w ws).0 (record d { world = world })

  -- The states of a round between two turns, whatever the order of the turns, with the keys that the
  -- turns had to keep back.
  pub data Reaches (d₀ : Drain W) (groups : List Group)
      : List Worker → List String → Drain W → List Group → Type 0 where
    begins : (n : ℕ) → Reaches d₀ groups (idle env deps n) [] d₀ groups
    turns :
        {w : Worker} {ws : List Worker} {back : List String} {d : Drain W} {queue : List Group}
        → Reaches d₀ groups (w ∷ ws) back d queue
        → (r : Round W) (e : Drain W) → step_round env deps w ws d queue ≡ (ok r, e)
        → Reaches d₀ groups r.workers (turn_keeps w ws d ++ back) r.drain r.queue

  abbrev After : Result (Round W) × Drain W → Type 0
  After (err lost, d) = Unit
  After (ok r, d) = IsExclusive r.workers r.drain.blocked r.queue

  after_step-After :
      (rest : List Worker) (s : Result (Option Worker) × Drain W × List Group)
      → Next rest s
      → After (after_step env deps rest s)
  after_step-After rest (err lost, d, queue) h = tt
  after_step-After rest (ok o, d, queue) h = h

  step_round-After :
      (w : Worker) (ws : List Worker) (d : Drain W) (queue : List Group)
      → IsExclusive (w ∷ ws) d.blocked queue
      → After (step_round env deps w ws d queue)
  unfolding step_round
  step_round-After w ws d queue (p, s, u, uq) =
      let (n, world) = env.turn (length (w ∷ ws)) d.world in
      let r = pick_worker env deps n w ws in
      after_step-After r.1 _ (
        step_worker-Next r.0 r.1 (record d { world = world }) queue
          (
            pick-Apart n w ws queue p,
            s,
            pick-All (λ v. Unblocked d.blocked (key_of v)) n w ws u.0 u.1,
            uq,
          ))

  abbrev AfterTurn : List String → Result (Round W) × Drain W → Type 0
  AfterTurn expected (err lost, d) = Unit
  AfterTurn expected (ok r, d) = r.drain.blocked ≡ expected

  after_step-AfterTurn :
      (expected : List String) (rest : List Worker)
      (s : Result (Option Worker) × Drain W × List Group)
      → Holds env deps expected s
      → AfterTurn expected (after_step env deps rest s)
  after_step-AfterTurn expected rest (err lost, d, queue) h = tt
  after_step-AfterTurn expected rest (ok o, d, queue) h = h

  step_round-AfterTurn :
      (w : Worker) (ws : List Worker) (d : Drain W) (queue : List Group)
      → AfterTurn (turn_keeps w ws d ++ d.blocked) (step_round env deps w ws d queue)
  unfolding step_round
  step_round-AfterTurn w ws d queue =
      let (n, world) = env.turn (length (w ∷ ws)) d.world in
      let r = pick_worker env deps n w ws in
      after_step-AfterTurn (keeps_back env deps r.0 (record d { world = world }) ++ d.blocked) r.1 _
        (step_worker-Holds env deps r.0 (record d { world = world }) queue)

  joined : (xs ys zs : List String) → xs ++ (ys ++ zs) ≡ (xs ++ ys) ++ zs
  joined [] ys zs = refl
  joined (x ∷ xs) ys zs = ap (◌∷◌ x) (joined xs ys zs)

  idle-Apart : (n : ℕ) (queue : List Group) → Apart (idle env deps n) queue
  idle-Apart zero queue = tt
  idle-Apart (suc n) queue = (no_key (idle env deps n), no_key_queue queue, idle-Apart n queue)

  idle-Unblocked : (n : ℕ) (b : List String) → All (λ v. Unblocked b (key_of v)) (idle env deps n)
  idle-Unblocked zero b = tt
  idle-Unblocked (suc n) b = (tt, idle-Unblocked n b)

  Distinct-Several :
      (p : Group → Bool) (groups : List Group)
      → Map.Distinct (group_key deps.poller) groups
      → Several (filter p groups)
  Distinct-Several p [] d = tt
  Distinct-Several p (g ∷ groups) d = elim (Bool-cases (p g)) [
    | inl t ↦ rw t (
      All-filter (λ (h : Group). g.key ≢ h.key) p groups (absent groups d.0),
      Distinct-Several p groups d.1,
    )
    | inr f ↦ rw f (Distinct-Several p groups d.1)
  ]
    where
      absent :
          (hs : List Group)
          → Map.Absent (group_key deps.poller) g.key hs
          → All (λ (h : Group). g.key ≢ h.key) hs
      absent [] a = tt
      absent (h ∷ hs) a = ((λ e. a.0 (sym e)), absent hs a.1)

  filter-Unblocked :
      (held blocked : List String) (groups : List Group)
      → All (λ (g : Group). Unblocked blocked (some g.key)) (open_groups held blocked groups)
  unfolding open_groups
  filter-Unblocked held blocked [] = tt
  filter-Unblocked held blocked (g ∷ groups) =
      elim (Bool-cases (not (elem g.key held) && not (elem g.key blocked))) [
        | inl t ↦ rw t (ground (arith, t), filter-Unblocked held blocked groups)
        | inr f ↦ rw f (filter-Unblocked held blocked groups)
      ]

  Reached-blocked :
      (rows : List OutboxRow) (d₀ d : Drain W) (ws : List Worker) (back : List String)
      (queue : List Group)
      → Reaches d₀ (deliverable env deps rows d₀) ws back d queue
      → d.blocked ≡ back ++ d₀.blocked
  Reached-blocked rows d₀ d ws back queue (begins n) = refl
  Reached-blocked rows d₀ _ _ _ _ (turns {w} {ws} {back} {d} {queue} before r e h) =
      let expected = turn_keeps w ws d ++ d.blocked in
      subst (AfterTurn expected) h (step_round-AfterTurn w ws d queue)
      ∙ ap (λ b. turn_keeps w ws d ++ b) (Reached-blocked rows d₀ d (w ∷ ws) back queue before)
      ∙ joined (turn_keeps w ws d) back d₀.blocked

  Reached-IsExclusive :
      (rows : List OutboxRow) (d₀ d : Drain W) (ws : List Worker) (back : List String)
      (queue : List Group)
      → Reaches d₀ (deliverable env deps rows d₀) ws back d queue
      → IsExclusive ws d.blocked queue
  unfolding deliverable open_groups
  Reached-IsExclusive rows d₀ d ws back queue (begins n) = (
    idle-Apart n _,
    Distinct-Several _ _ (group_by_ordering_key_lem deps.poller rows).1,
    idle-Unblocked n d₀.blocked,
    filter-Unblocked _ d₀.blocked _,
  )
  Reached-IsExclusive rows d₀ _ _ _ _ (turns {w} {ws} {back} {d} {queue} before r e h) =
      subst After h
        (step_round-After w ws d queue (Reached-IsExclusive rows d₀ d (w ∷ ws) back queue before))

  -- In every state of a round that turns of the workers reach from the groups of a slice, the blocked
  -- keys are those that were blocked at its start and those that the turns had to keep back: the keys
  -- of rows that wait for a retry, of deliveries that failed and are repeated, and of events that were
  -- parked under a hold. No two workers have groups of one ordering key, no group that waits has the
  -- key of another or of a worker, and no blocked key is among them: the events of a key are delivered
  -- one at a time, and none behind one that is kept back.
  pub Reaches-IsExclusive :
      (rows : List OutboxRow) (d₀ d : Drain W) (ws : List Worker) (back : List String)
      (queue : List Group)
      → Reaches d₀ (deliverable env deps rows d₀) ws back d queue
      → (d.blocked ≡ back ++ d₀.blocked) × IsExclusive ws (back ++ d₀.blocked) queue
  Reaches-IsExclusive rows d₀ d ws back queue h =
      let e = Reached-blocked rows d₀ d ws back queue h in
      (e, subst (λ b. IsExclusive ws b queue) e (Reached-IsExclusive rows d₀ d ws back queue h))
