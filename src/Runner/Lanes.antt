-- ===== src/Runner/Lanes.antt =====
-- src/core/runner.ts: what is due, and what a cycle writes of its lane.
use watukuy.Base.{
  ℕ, ◌+◌, min, Bool, true, false, not, Option, none, some, String, leb, if◌then◌else◌,
}
use watukuy.Types.{ResolvedPoller, PollerState, LaneCursor, Lane, backfill, reconcile, no_lanes}
use watukuy.Scheduler.{initial_schedule_state}
use watukuy.Dispatcher.{DrainResult}

unfoldable pub empty_state : ℕ → ResolvedPoller → PollerState
unfolding initial_schedule_state
empty_state now poller = record {
  lanes = no_lanes;
  schedule =
      initial_schedule_state now (record { schedule = poller.schedule; circuit = poller.circuit });
  paused = false;
  schema_version = none;
  sequence = 0;
  created_at = now;
  updated_at = now;
}

abbrev pub last_run : Option LaneCursor → Option ℕ
last_run none = none
last_run (some lane) = lane.last_run_at

abbrev due_again : ℕ → Option ℕ → ℕ → Bool
due_again every none now = true
due_again every (some last) now = leb (last + every) now

unfoldable pub reconcile_due : ResolvedPoller → PollerState → ℕ → Bool
reconcile_due poller state now = elim poller.reconcile_every_ms [
  | none ↦ false
  | some every ↦ due_again every (last_run state.lanes.reconcile) now
]

abbrev unfinished : Option LaneCursor → Bool
unfinished none = false
unfinished (some lane) = not lane.done

unfoldable pub backfill_active : PollerState → Bool
backfill_active state = unfinished state.lanes.backfill

abbrev earlier : Option ℕ → Option ℕ → Option ℕ
earlier at none = at
earlier none (some t) = some t
earlier (some at) (some t) = some (min at t)

-- `out.nextRetryAt`, after a drain
unfoldable pub note_retry : Option ℕ → Option DrainResult → Option ℕ
note_retry at none = at
note_retry at (some drain) = earlier at drain.next_retry_at

abbrev pub no_cursor : LaneCursor
no_cursor = record { cursor = none; target = none; done = false; last_run_at = none; force = false }

-- `laneNext`: the lane after a page, with the text of its cursor.
unfoldable pub lane_next : Lane → LaneCursor → Bool → String → LaneCursor
lane_next backfill before force text = record before {
  cursor = some text;
  done = false;
  force = force;
}
lane_next reconcile before force text = record before { cursor = some text; done = false }
lane_next _ before force text = record before { cursor = some text }

-- `laneFinal`: the lane after a cycle.
unfoldable pub lane_final : Lane → LaneCursor → Bool → String → Bool → ℕ → LaneCursor
lane_final reconcile before force text done now = record {
  cursor = none;
  target = none;
  done = done;
  last_run_at = if done then some now else before.last_run_at;
  force = false;
}
lane_final backfill before force text done now = record {
  cursor = some text;
  target = before.target;
  done = done;
  last_run_at = none;
  force = force;
}
lane_final _ before force text done now = record {
  cursor = some text;
  target = none;
  done = false;
  last_run_at = none;
  force = false;
}
