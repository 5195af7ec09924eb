-- ===== src/Engine/Calls.antt =====
-- src/core/engine.ts and src/core/runner.ts: what a call of the operator does to the next run.
use watukuy.Base.{
  ℕ, ◌≤◌, Bool, true, Option, none, some, ◌≡◌, refl, arith, ==-refl, or_else, ap, ◌∙◌,
}
use watukuy.Types.{Result, PKey, pkey_eq, StatePatch, PollerState, ok, ResolvedPoller}
use watukuy.Scheduler.{is_due, make_due}
use watukuy.Store.{MemoryStore, record_of, load_state, save_state_unfenced}
use watukuy.Store.Rows.{KeyRecord, apply_patch, patch_state}
use watukuy.Store.Calls.{step, saves_unfenced}
use watukuy.Store.Fencing.{record_of-step}
use watukuy.Runner.Cycle.{Strategy, Api, no_patch}
use watukuy.Runner.Lanes.{empty_state}
use watukuy.Runner.Key.{
  RunKeyResult, paused, nothing, because, KeyDeps, when_due, something_due, load_or_empty, run_key,
}
use watukuy.Engine.{Engine, trigger, pause, made_due}

-- What the key's record holds after a save without a fence.
saved_record :
    (s : MemoryStore) (key : PKey) (patch : StatePatch)
    → record_of (save_state_unfenced s key patch) key ≡ apply_patch patch (record_of s key)
saved_record s key patch =
    unfold step in (record_of-step s key key (saves_unfenced patch) ∙ rw (==-refl key) refl)

saved_state :
    (s : MemoryStore) (key : PKey) (patch : StatePatch)
    → load_state (save_state_unfenced s key patch) key ≡ (apply_patch patch (record_of s key)).state
saved_state s key patch =
    unfold load_state in ap (λ (r : KeyRecord). r.state) (saved_record s key patch)

-- A key that was triggered is due from then on, whatever its circuit and its throttling were.
trigger-is_due :
    (poller : ResolvedPoller) (key : PKey) (now later : ℕ) (e : Engine)
    → now ≤ later
    → (state : PollerState) × (load_state (trigger poller key now e).store key ≡ some state)
      × (is_due state.schedule later ≡ true)
unfolding trigger apply_patch patch_state
trigger-is_due poller key now later e h = (
  _,
  saved_state e.store key (record no_patch {
    schedule = some (made_due poller key now (load_state e.store key));
    updated_at = some now;
  }),
  made_due-is_due (load_state e.store key),
)
  where
    made_due-is_due : (o : Option PollerState) → is_due (made_due poller key now o) later ≡ true
    made_due-is_due none = unfold is_due in unfold made_due in unfold make_due in ground (arith, h)
    made_due-is_due (some state) =
        unfold is_due in unfold made_due in unfold make_due in ground (arith, h)

module _ {W C R : Type 0} (api : Api W C) (strategy : Strategy C) (reconcile_api : Api W R)
    (reconcile_strategy : Strategy R) (deps : KeyDeps) where
  abbrev pub stopped_run : MemoryStore → W → Option (Result RunKeyResult × MemoryStore × W)
  stopped_run s world = some (
    ok (
        because paused
          (nothing (load_or_empty api strategy reconcile_api reconcile_strategy deps s world))),
    s,
    world,
  )

  -- A run of a key whose state is paused stops before it asks for the lease, and leaves the store.
  pub run_key-paused :
      (s : MemoryStore) (world : W) (state : PollerState)
      → load_state s deps.page.key ≡ some state
      → state.paused ≡ true
      → run_key api strategy reconcile_api reconcile_strategy deps s world ≡ stopped_run s world
  unfolding run_key load_or_empty
  run_key-paused s world state h p =
      let pre = load_or_empty api strategy reconcile_api reconcile_strategy deps s world in
      ap
        (λ (b : Bool).
          when_due api strategy reconcile_api reconcile_strategy deps b
            (something_due api strategy reconcile_api reconcile_strategy deps s world pre)
            (nothing pre) s world)
        (ap
            (λ (o : Option PollerState).
              (or_else o (empty_state (api.dispatch.now world) deps.page.poller)).paused)
            h
          ∙ p)

  run_key-pause :
      (now : ℕ) (e : Engine) (world : W)
      → let s = (pause deps.page.poller deps.page.key now e).store in
        run_key api strategy reconcile_api reconcile_strategy deps s world ≡ stopped_run s world
  unfolding pause apply_patch patch_state
  run_key-pause now e world =
      run_key-paused (pause deps.page.poller deps.page.key now e).store world _
        (saved_state e.store deps.page.key
          (record no_patch { paused = some true; updated_at = some now }))
        refl
