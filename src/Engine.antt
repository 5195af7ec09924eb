-- ===== src/Engine.antt =====
-- src/core/engine.ts: the calls of an operator on one key. The poller and the partition are looked up
-- already; waking the loop of the engine is left out.
mod Calls
pub mod Partitions
mod Seeded
pub mod Gone
pub mod Tick
mod Wakes
mod Examples
use watukuy.Base.{
  ℕ, Bool, true, false, String, Option, none, some, List, [], or_else, if◌then◌else◌,
}
use Prim.Native.String.{◌++◌ as append}
use watukuy.Base.Map
use watukuy.Base.Map.{Map}
use watukuy.Types.{
  PKey, pkey_eq, PollerState, StatePatch, ScheduleState, LaneCursor, Lanes, no_lanes, lane_of, live,
  backfill as backfill_lane, with_lane, ResolvedPoller, Result, ok, err, config, ◌>>=◌,
}
use watukuy.Scheduler.{initial_schedule_state, make_due}
use watukuy.Store.{
  MemoryStore, load_state, save_state_unfenced, clear_items, retry_parked, discard_parked,
  delete_key,
}
use watukuy.Runner.Cycle.{no_patch}
use watukuy.Runner.Lanes.{no_cursor}

-- The store, and `nextDue`
pub record Engine : Type 0 where
  pub store : MemoryStore
  pub next_due : Map PKey ℕ

-- BackfillOptions; `to` is `undefined`, or a cursor that may be null
pub record BackfillOptions : Type 0 where
  pub from : Option String
  pub to : Option (Option String)
  pub force : Bool

pub record ResetCursorOptions : Type 0 where
  pub to : Option String
  pub clear_snapshot : Bool

abbrev lanes_of : Option PollerState → Lanes
lanes_of none = no_lanes
lanes_of (some state) = state.lanes

abbrev cursor_of : Option LaneCursor → Option String
cursor_of none = none
cursor_of (some lane) = lane.cursor

module _ (poller : ResolvedPoller) (key : PKey) (now : ℕ) where
  abbrev due_now : Engine → MemoryStore → Engine
  due_now e store = record { store = store; next_due = Map.set key now e.next_due }

  -- The schedule of the key, due now.
  unfoldable pub made_due : Option PollerState → ScheduleState
  unfolding make_due initial_schedule_state
  made_due none =
      make_due
        (initial_schedule_state now
          (record { schedule = poller.schedule; circuit = poller.circuit }))
        now
  made_due (some state) = make_due state.schedule now

  unfoldable pub trigger : Engine → Engine
  unfolding made_due save_state_unfenced
  trigger e = due_now e (
      save_state_unfenced e.store key (record no_patch {
        schedule = some (made_due (load_state e.store key));
        updated_at = some now;
      }))

  unfoldable pub pause : Engine → Engine
  unfolding save_state_unfenced
  pause e = record e {
    store =
        save_state_unfenced e.store key
          (record no_patch { paused = some true; updated_at = some now });
  }

  unfoldable pub resume : Engine → Engine
  unfolding save_state_unfenced
  resume e = due_now e (
      save_state_unfenced e.store key
        (record no_patch { paused = some false; updated_at = some now }))

  -- `from_raw` is `strategy.fromRaw` and `serialize` after it.
  module _ (from_raw : Option String → Result String) where
    abbrev target_of : Option (Option String) → Option PollerState → Result (Option String)
    target_of (some (some to)) state = from_raw (some to) >>= λ target. ok (some target)
    target_of (some none) state = ok none
    target_of none state = ok (cursor_of (lane_of (lanes_of state) live))

    unfoldable pub backfill : Bool → BackfillOptions → Engine → Result Engine
    unfolding save_state_unfenced load_state
    backfill is_snapshot_diff options e =
        let state = load_state e.store key in
        if is_snapshot_diff
        then err (
            config (
              append "poller '" (
                append poller.name
                  "' uses snapshotDiff; backfill is meaningless (every cycle is a full scan)")))
        else from_raw options.from >>= λ from. target_of options.to state >>= λ target. ok (
            due_now e (
              save_state_unfenced e.store key (record no_patch {
                lanes = some (
                    with_lane (lanes_of state) backfill_lane (record no_cursor {
                      cursor = some from;
                      target = target;
                      force = options.force;
                    }));
                updated_at = some now;
              })))

    abbrev reset_to : Option String → Result (Option String)
    reset_to none = ok none
    reset_to (some to) = from_raw (some to) >>= λ cursor. ok (some cursor)

    unfoldable pub reset_cursor : ResetCursorOptions → Engine → Result Engine
    unfolding save_state_unfenced load_state made_due clear_items
    reset_cursor options e =
        let state = load_state e.store key in
        reset_to options.to >>= λ cursor.
        let saved = save_state_unfenced e.store key (record no_patch {
          lanes = some (with_lane (lanes_of state) live (record no_cursor { cursor = cursor }));
          schedule = some (made_due state);
          updated_at = some now;
        }) in
        ok (due_now e (if options.clear_snapshot then clear_items saved key else saved))

  -- `parked.retry`, with the count of the rows
  unfoldable pub retry : List String → Engine → ℕ × Engine
  unfolding retry_parked
  retry ids e = let (n, store) = retry_parked e.store key ids in (n, due_now e store)

  unfoldable pub discard : List String → Engine → ℕ × Engine
  unfolding discard_parked
  discard ids e = let (n, store) = discard_parked e.store key ids in (n, record e { store = store })

  -- `partitions.remove`
  unfoldable pub remove : Engine → Engine
  unfolding delete_key
  remove e = record { store = delete_key e.store key; next_due = Map.delete key e.next_due }
