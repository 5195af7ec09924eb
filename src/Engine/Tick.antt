-- ===== src/Engine/Tick.antt =====
-- src/core/engine.ts: when a key is looked at again, and `tick`. The run of a key is an argument: it is
-- `run_key` with what the poller of the key brings. A run is one step, since runs of different keys
-- change different records of the store.
use watukuy.Base.{
  ℕ, zero, suc, ◌+◌, ◌/◌, min, max, Bool, true, false, ◌||◌, Option, none, some, or_else, List, [],
  ◌∷◌, ◌++◌, leb, length, if◌then◌else◌,
}
use watukuy.Types.{ResolvedPoller, PollerState, Result, ok, err}
use watukuy.Store.{MemoryStore}
use watukuy.Runner.Lanes.{last_run, backfill_active}
use watukuy.Runner.Outcome.{TickPollResult}
use watukuy.Runner.Key.{Reason, not_due, paused, leased, stopped, RunKeyResult}

abbrev pub max_sleep_ms : ℕ
max_sleep_ms = 30_000

abbrev throttled : Option ℕ → ℕ → ℕ
throttled none next = next
throttled (some until) next = max next until

abbrev reconciled : Option ℕ → Option ℕ → ℕ → ℕ → ℕ
reconciled none last now next = next
reconciled (some every) none now next = min next now
reconciled (some every) (some last) now next = min next (last + every)

abbrev backfilled : Bool → ℕ → ℕ → ℕ
backfilled true now next = min next now
backfilled false now next = next

unfoldable pub next_due_from_state : ResolvedPoller → Option PollerState → ℕ → ℕ
unfolding backfill_active
next_due_from_state poller none now = now
next_due_from_state poller (some state) now =
    max
      (backfilled (backfill_active state) now (
        reconciled poller.reconcile_every_ms (last_run state.lanes.reconcile) now
          (throttled state.schedule.throttled_until (or_else state.schedule.next_due_at now))))
      now

abbrev pub by_reason : ResolvedPoller → ℕ → RunKeyResult → ℕ → Option Reason → ℕ
by_reason poller lease_ttl_ms r now (some leased) = now + max 1_000 (lease_ttl_ms / 2)
by_reason poller lease_ttl_ms r now (some paused) = now + max_sleep_ms
by_reason poller lease_ttl_ms r now _ = next_due_from_state poller r.state now

abbrev pub not_after : Option ℕ → ℕ → ℕ
not_after none next = next
not_after (some retry) next = min next retry

-- `next` of `runOne`
unfoldable pub next_run : ResolvedPoller → ℕ → RunKeyResult → ℕ → ℕ
unfolding next_due_from_state
next_run poller lease_ttl_ms r now =
    not_after r.next_retry_at (by_reason poller lease_ttl_ms r now r.reason)

pub record TickResult : Type 0 where
  pub polled : List TickPollResult
  pub delivered : ℕ
  pub skipped_leased : ℕ
  pub skipped_not_due : ℕ
  pub timed_out : Bool

abbrev pub sum_delivered : List TickPollResult → ℕ
sum_delivered [] = 0
sum_delivered (p ∷ ps) = p.delivered + sum_delivered ps

abbrev is_leased : Option Reason → Bool
is_leased (some leased) = true
is_leased _ = false

abbrev is_idle : Option Reason → Bool
is_idle (some not_due) = true
is_idle (some paused) = true
is_idle _ = false

abbrev is_stopped : Option Reason → Bool
is_stopped (some stopped) = true
is_stopped _ = false

-- What a run adds to the result of the tick.
unfoldable pub noted_run : RunKeyResult → TickResult → TickResult
noted_run r t = record {
  polled = t.polled ++ r.results;
  delivered = t.delivered + (r.drained_before + sum_delivered r.results);
  skipped_leased = t.skipped_leased + (if is_leased r.reason then 1 else 0);
  skipped_not_due = t.skipped_not_due + (if is_idle r.reason then 1 else 0);
  timed_out = t.timed_out || is_stopped r.reason;
}

pub record Tick (K W : Type 0) : Type 0 where
  pub queue : List K
  pub workers : ℕ
  pub store : MemoryStore
  pub world : W
  pub result : TickResult

module _ {K W : Type 0} (run : K → MemoryStore → W → Option (Result RunKeyResult × MemoryStore × W))
    (now : W → ℕ) (deadline : Option ℕ) where
  abbrev pub past : Option ℕ → ℕ → Bool
  past none at = false
  past (some d) at = leb d at

  abbrev pub ran :
      Tick K W
      → Option (Result RunKeyResult × MemoryStore × W)
      → (Tick K W → Option (Result TickResult × MemoryStore))
      → Option (Result TickResult × MemoryStore)
  ran t none more = none
  ran t (some (err thrown, s, w)) more = some (err thrown, s)
  ran t (some (ok r, s, w)) more =
      more (record t { store = s; world = w; result = noted_run r t.result })

  -- A worker takes a key, or ends: where the queue is empty, and where the deadline is past, with the
  -- key that it took.
  unfoldable pub tick_loop : ℕ → Tick K W → Option (Result TickResult × MemoryStore)
  unfolding noted_run
  tick_loop zero t = none
  tick_loop (suc fuel) t =
      let more = tick_loop fuel in
      elim t.workers [
        | zero ↦ some (ok t.result, t.store)
        | suc left ↦ elim t.queue [
          | [] ↦ more (record t { workers = left })
          | key ∷ keys ↦
              if past deadline (now t.world)
              then more (record t {
                queue = keys;
                workers = left;
                result = record t.result { timed_out = true };
              })
              else ran (record t { queue = keys }) (run key t.store t.world) more
        ]
      ]

  abbrev no_tick : TickResult
  no_tick = record {
    polled = [];
    delivered = 0;
    skipped_leased = 0;
    skipped_not_due = 0;
    timed_out = false;
  }

  -- TICK_CONCURRENCY workers at most. The keys are those of the pollers that the caller asked for. A run
  -- that throws ends the tick; what the runs beside it still do is not followed.
  unfoldable pub tick : List K → MemoryStore → W → Option (Result TickResult × MemoryStore)
  unfolding tick_loop
  tick keys store world = tick_loop (length keys + 5) (record {
    queue = keys;
    workers = min 4 (length keys);
    store = store;
    world = world;
    result = no_tick;
  })
