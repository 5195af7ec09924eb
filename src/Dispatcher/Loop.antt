-- ===== src/Dispatcher/Loop.antt =====
-- src/core/dispatcher.ts: the loop of `drainOutbox`.
use watukuy.Base.{
  ℕ, zero, suc, ◌+◌, ◌*◌, Bool, true, false, not, ◌&&◌, ◌||◌, Option, none, some, String, List, [],
  ◌∷◌, ltb, leb, nat_eqb, length, filter, elem, if◌then◌else◌, string_eq,
}
use watukuy.Types.{OutboxRow, Result, ok, err}
use watukuy.Store.{MemoryStore, record_of}
use watukuy.Store.Queries.{load_pending, held_keys, count_pending}
use watukuy.Dispatcher.{
  Env, DispatcherDeps, DrainResult, no_result, Drain, Group, group_by_ordering_key, stopped,
}
use watukuy.Dispatcher.Round.{run_round}

-- What an iteration does with the rows that it loads.
pub data Plan : Type 0 where
  finish : Plan
  widen : Plan
  serve : List Group → Plan

unfoldable pub open_groups : List String → List String → List Group → List Group
open_groups held blocked groups =
    filter (λ (g : Group). not (elem g.key held) && not (elem g.key blocked)) groups

module _ {W : Type 0} (env : Env W) (deps : DispatcherDeps) where
  unfoldable pub deliverable : List OutboxRow → Drain W → List Group
  unfolding group_by_ordering_key open_groups
  deliverable rows d =
      open_groups (held_keys d.store deps.key) d.blocked (group_by_ordering_key deps.poller rows)

  -- No wider window would help: the slice was not full, or the window is at its limit.
  abbrev pub is_exhausted : List OutboxRow → ℕ → Bool
  is_exhausted rows window = ltb (length rows) window || leb (deps.dispatch_batch_size * 16) window

  unfoldable pub no_groups : List OutboxRow → ℕ → Plan
  no_groups rows window = if is_exhausted rows window then finish else widen

  unfoldable pub plan_groups : List OutboxRow → ℕ → List Group → Plan
  unfolding no_groups
  plan_groups [] window groups = finish
  plan_groups (row ∷ rows) window [] = no_groups (row ∷ rows) window
  plan_groups (row ∷ rows) window (g ∷ groups) = serve (g ∷ groups)

  unfoldable pub plan : ℕ → Drain W → Plan
  unfolding plan_groups deliverable
  plan window d =
      let rows = load_pending d.store deps.key window in
      if stopped env deps d then finish else plan_groups rows window (deliverable rows d)

  abbrev pub after_round :
      Option (Result (Unit {0}) × Drain W)
      → (Drain W → Option (Result (Unit {0}) × Drain W))
      → Option (Result (Unit {0}) × Drain W)
  after_round none more = none
  after_round (some (err lost, d)) more = some (err lost, d)
  after_round (some (ok _, d)) more = if nat_eqb d.progress 0 then some (ok tt, d) else more d

  abbrev pub carry_out :
      Plan
      → Drain W
      → (Drain W → Option (Result (Unit {0}) × Drain W))
      → (Drain W → Option (Result (Unit {0}) × Drain W))
      → Option (Result (Unit {0}) × Drain W)
  carry_out finish d wider again = some (ok tt, d)
  carry_out widen d wider again = wider d
  carry_out (serve groups) d wider again = after_round (run_round env deps groups d) again

  -- `for (;;)`, with the load window
  unfoldable pub drain_loop : ℕ → ℕ → Drain W → Option (Result (Unit {0}) × Drain W)
  unfolding plan
  drain_loop zero window d = none
  drain_loop (suc fuel) window d =
      carry_out (plan window d) d (drain_loop fuel (window * 2)) (drain_loop fuel window)

  abbrev pub reported : Result (Unit {0}) × Drain W → Result DrainResult × Drain W
  reported (err lost, d) = (err lost, d)
  reported (ok _, d) = (ok (record d.result { remaining = count_pending d.store deps.key }), d)

  abbrev pub report : Option (Result (Unit {0}) × Drain W) → Option (Result DrainResult × Drain W)
  report none = none
  report (some r) = some (reported r)

  abbrev pub start : MemoryStore → W → Drain W
  start s w = record { store = s; result = no_result; blocked = []; progress = 0; world = w }

  -- A round that goes on has shortened the outbox, and the window is doubled at most four times.
  unfoldable pub drain_fuel : MemoryStore → ℕ
  drain_fuel s = length (record_of s deps.key).outbox + 6

  -- `none` is a loop out of fuel; a result is the drain's, with the state that it leaves.
  unfoldable pub drain_outbox : Bool → MemoryStore → W → Option (Result DrainResult × Drain W)
  unfolding drain_loop drain_fuel
  drain_outbox false s w = report (some (ok tt, start s w))
  drain_outbox true s w = report (drain_loop (drain_fuel s) deps.dispatch_batch_size (start s w))
