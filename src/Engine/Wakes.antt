-- ===== src/Engine/Wakes.antt =====
-- src/core/engine.ts and src/core/runner.ts: a key is looked at again when something of it is due.
use watukuy.Base.{
  Bool, true, false, ◌&&◌, ◌/◌, ap, ◌∙◌, ℕ, zero, suc, ◌+◌, ◌≤◌, ◌<◌, List, [], ◌∷◌, length,
  Bool-cases, ◌||◌, Option, none, some, leb, min, ◌≡◌, refl, arith, inl, inr,
}
use watukuy.Types.{ResolvedPoller, PollerState, Result, ok, err}
use watukuy.Store.{MemoryStore}
use watukuy.Runner.Key.{RunKeyResult, Reason, not_due, paused, leased, stopped}
use watukuy.Scheduler.{is_due}
use watukuy.Runner.Lanes.{reconcile_due, backfill_active}
use watukuy.Engine.Tick.{
  next_due_from_state, next_run, by_reason, not_after, TickResult, Tick, past, ran, noted_run,
  tick_loop, tick,
}

-- The time that the state alone gives is the first, from now on, at which its schedule, its
-- reconcile lane or its backfill is due.
next_due_from_state-is_due :
    (poller : ResolvedPoller) (state : PollerState) (now later : ℕ)
    → now ≤ later
    → leb (next_due_from_state poller (some state) now) later
      ≡ (is_due state.schedule later || (reconcile_due poller state later || backfill_active state))
unfolding next_due_from_state is_due reconcile_due backfill_active
next_due_from_state-is_due poller state now later h = ground (arith, h)

-- Something of the state is due; a key without a state is due at once.
abbrev pub state_due : ResolvedPoller → Option PollerState → ℕ → Bool
state_due poller none later = true
state_due poller (some state) later =
    is_due state.schedule later || (reconcile_due poller state later || backfill_active state)

-- What a key waits for after a run: half a lease where another owner has it, a poll of the paused
-- ones after half a minute, its state otherwise.
abbrev pub waits_for : ResolvedPoller → ℕ → RunKeyResult → ℕ → Option Reason → ℕ → Bool
waits_for poller lease_ttl_ms r now (some leased) later =
    leb (now + 1_000) later && leb (now + lease_ttl_ms / 2) later
waits_for poller lease_ttl_ms r now (some paused) later = leb (now + 30_000) later
waits_for poller lease_ttl_ms r now (some not_due) later = state_due poller r.state later
waits_for poller lease_ttl_ms r now (some stopped) later = state_due poller r.state later
waits_for poller lease_ttl_ms r now none later = state_due poller r.state later

-- The retry of an event is due.
abbrev pub retry_due : Option ℕ → ℕ → Bool
retry_due none later = false
retry_due (some at) later = leb at later

by_state :
    (poller : ResolvedPoller) (o : Option PollerState) (now later : ℕ)
    → now ≤ later
    → leb (next_due_from_state poller o now) later ≡ state_due poller o later
by_state poller none now later h = unfold next_due_from_state in ground (arith, h)
by_state poller (some state) now later h = next_due_from_state-is_due poller state now later h

by_reason-waits_for :
    (poller : ResolvedPoller) (lease_ttl_ms : ℕ) (r : RunKeyResult) (now later : ℕ)
    (o : Option Reason)
    → now ≤ later
    → leb (by_reason poller lease_ttl_ms r now o) later
      ≡ waits_for poller lease_ttl_ms r now o later
by_reason-waits_for poller ttl r now later (some leased) h = ground (arith, h)
by_reason-waits_for poller ttl r now later (some paused) h = refl
by_reason-waits_for poller ttl r now later (some not_due) h = by_state poller r.state now later h
by_reason-waits_for poller ttl r now later (some stopped) h = by_state poller r.state now later h
by_reason-waits_for poller ttl r now later none h = by_state poller r.state now later h

not_after-retry_due :
    (o : Option ℕ) (next later : ℕ)
    → leb (not_after o next) later ≡ (leb next later || retry_due o later)
not_after-retry_due none next later = ground arith
not_after-retry_due (some at) next later = ground arith

-- After a run a key is looked at again exactly from the first time, from now on, at which what it
-- waits for is due, or the retry of an event.
pub next_run-waits_for :
    (poller : ResolvedPoller) (lease_ttl_ms : ℕ) (r : RunKeyResult) (now later : ℕ)
    → now ≤ later
    → leb (next_run poller lease_ttl_ms r now) later
      ≡ (waits_for poller lease_ttl_ms r now r.reason later || retry_due r.next_retry_at later)
unfolding next_run
next_run-waits_for poller ttl r now later h =
    not_after-retry_due r.next_retry_at (by_reason poller ttl r now r.reason) later
    ∙ ap (λ b. b || retry_due r.next_retry_at later)
        (by_reason-waits_for poller ttl r now later r.reason h)

-- A call that has a result, as a run of a key does.
abbrev Returns : {A : Type 0} → Option A → Type 0
Returns {A} r = (a : A) × (r ≡ some a)

module _ {K W : Type 0} (run : K → MemoryStore → W → Option (Result RunKeyResult × MemoryStore × W))
    (now : W → ℕ) (deadline : Option ℕ)
    (runs : (key : K) (s : MemoryStore) (w : W) → Returns (run key s w)) where
  ran-Returns :
      (t : Tick K W) (o : Option (Result RunKeyResult × MemoryStore × W))
      (more : Tick K W → Option (Result TickResult × MemoryStore))
      → Returns o
      → ((s : MemoryStore) (w : W) (r : TickResult)
          → Returns (more (record t { store = s; world = w; result = r })))
      → Returns (ran run now deadline t o more)
  ran-Returns t none more (a, e) h = absurd (cc e)
  ran-Returns t (some (err thrown, s, w)) more _ h = (_, refl)
  ran-Returns t (some (ok r, s, w)) more _ h = h s w (noted_run r t.result)

  loop-Returns :
      (fuel workers : ℕ) (queue : List K) (s : MemoryStore) (w : W) (r : TickResult)
      → workers + length queue < fuel
      → Returns (
          tick_loop run now deadline fuel
            (record { queue = queue; workers = workers; store = s; world = w; result = r }))
  unfolding tick_loop
  loop-Returns zero workers queue s w r h = absurd (omega arith)
  loop-Returns (suc fuel) zero queue s w r h = (_, refl)
  loop-Returns (suc fuel) (suc left) [] s w r h = loop-Returns fuel left [] s w r (omega arith)
  loop-Returns (suc fuel) (suc left) (key ∷ keys) s w r h =
      elim (Bool-cases (past run now deadline deadline (now w))) [
        | inl t ↦ rw t (loop-Returns fuel left keys s w _ (omega arith))
        | inr f ↦ rw f (
            ran-Returns
              (record { queue = keys; workers = suc left; store = s; world = w; result = r })
              (run key s w) (tick_loop run now deadline fuel) (runs key s w)
              (λ s' w' r'. loop-Returns fuel (suc left) keys s' w' r' (omega (arith, h))))
      ]

  -- A tick ends, whatever the runs do: a worker that goes on has taken a key.
  tick-Returns :
      (keys : List K) (s : MemoryStore) (w : W) → Returns (tick run now deadline keys s w)
  unfolding tick
  tick-Returns keys s w =
      loop-Returns (length keys + 5) (min 4 (length keys)) keys s w _ (ground arith)
