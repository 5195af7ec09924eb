-- ===== src/Runner/CycleEnds.antt =====
-- src/core/runner.ts: a cycle ends, where each row of the outbox is filed under the id of its event, and
-- leaves the rows so.
use watukuy.Base.{
  ◌∙◌, ℕ, ◌+◌, Bool, Option, some, String, List, [], ◌∷◌, ◌≡◌, refl, ap, inl, inr, Bool-cases,
  length, ◌&&◌,
}
use watukuy.Types.{
  Lane, PollerState, StatePatch, OutboxRow, Result, ok, err, Error, is_lease_lost, ScheduleState,
  with_lane,
}
use watukuy.Store.{MemoryStore, record_of, save_state, commit_poll}
use watukuy.Dispatcher.Outbox.{IsOutbox}
use watukuy.Runner.Calls.{M, after}
use watukuy.Runner.Events.{number_events_lem}
use watukuy.Runner.Lanes.{lane_final}
use watukuy.Runner.Cycle.{
  Strategy, Api, CycleDeps, Cycle, written, now_of, is_aborted, drain, no_patch, lane_before,
}
use watukuy.Runner.Pages.{between, loop_fuel}
use watukuy.Runner.Finish.{
  is_whole, deleted_events, delete_batch, drained_last, deliver_deleted, delete_missing,
  complete_scan, missing_items,
}
use watukuy.Runner.Outcome.{
  CycleResult, completed, schedule_after, schedule_failed, finish_cycle, recorded, fail_cycle,
  is_abort_error, caught, unless_hung, after_pages, run_pages, begun, run_cycle, new_cycle,
}
use watukuy.Runner.Endings.{page_loop-Returns}
use watukuy.Runner.Writes.{save_state-IsOutbox, commit_poll-IsOutbox}
use watukuy.Runner.Filing.{Filed, KeepsFiled, after-Filed, written-Filed, drain-Filed}
use watukuy.Runner.FiledLoop.{page_loop-Filed}

module _ {W C : Type 0} (api : Api W C) (strategy : Strategy C) (deps : CycleDeps)
    (lane : Lane) where
  abbrev Keeps : {A : Type 0} → M (Cycle W C) A → Type 0
  Keeps = KeepsFiled api strategy deps lane

  abbrev IsSound : Cycle W C → Type 0
  IsSound = Filed api strategy deps lane

  deliver_deleted-Filed :
      (rows : List OutboxRow) → Keeps (deliver_deleted api strategy deps lane rows)
  deliver_deleted-Filed [] c h = h
  deliver_deleted-Filed (row ∷ rows) c h =
      after-Filed api strategy deps lane (drain api strategy deps lane c)
        (drained_last api strategy deps lane) (drain-Filed api strategy deps lane c h) (λ d e k. k)

  delete_missing-Filed :
      (missing : List String) → Keeps (delete_missing api strategy deps lane missing)
  unfolding delete_missing delete_batch deleted_events
  delete_missing-Filed [] c h = h
  delete_missing-Filed (id ∷ ids) c (o, h) =
      let missing = id ∷ ids in
      let events = deleted_events api strategy deps lane missing c in
      let sequence = c.sequence + length events in
      let now = now_of api strategy deps lane c in
      let noted : Cycle W C → Cycle W C = λ e. record e {
        sequence = sequence;
        state = record e.state { sequence = sequence; updated_at = now };
        deleted = c.deleted + length events;
      } in
      let batch = delete_batch api strategy deps lane missing events c in
      let r = commit_poll c.store deps.page.key deps.lease batch in
      after-Filed api strategy deps lane (written c noted r)
        (λ _. deliver_deleted api strategy deps lane events)
        (written-Filed api strategy deps lane c noted (λ e k. k) r
          (commit_poll-IsOutbox c.store deps.page.key deps.lease batch
            (number_events_lem deps.page lane now (strategy.serialize c.cursor) c.sequence _).1 o)
          h)
        (λ _. deliver_deleted-Filed events)

  complete_scan-Filed : Keeps (complete_scan api strategy deps lane)
  unfolding complete_scan
  complete_scan-Filed c h = elim (Bool-cases (is_whole api strategy deps lane c)) [
    | inl t ↦ rw t (delete_missing-Filed (missing_items c.store deps.page.key c.seen) c h)
    | inr f ↦ rw f h
  ]

  module _ (start : PollerState) (started_at : ℕ) where
    completed-IsSound :
        (c : Cycle W C) → IsSound c → IsSound (completed api strategy deps lane start started_at c)
    unfolding completed
    completed-IsSound c h = elim (Bool-cases c.done) [ inl t ↦ rw t h | inr f ↦ rw f h ]

    finish_cycle-Filed :
        (force : Bool) → Keeps (finish_cycle api strategy deps lane start started_at force)
    unfolding finish_cycle
    finish_cycle-Filed force before h =
        let c = completed api strategy deps lane start started_at before in
        let (o, k) = completed-IsSound before h in
        let now = now_of api strategy deps lane c in
        let (schedule, world) = schedule_after api strategy deps lane start started_at c in
        let final =
          lane_final lane (lane_before api strategy deps lane start) force
            (strategy.serialize c.cursor) c.done now in
        let lanes = with_lane c.state.lanes lane final in
        let patch : StatePatch = record no_patch {
          lanes = some lanes;
          schedule = some schedule;
          sequence = some c.sequence;
          updated_at = some now;
        } in
        let noted : Cycle W C → Cycle W C = λ e. record e {
          state = record e.state {
            lanes = lanes;
            schedule = schedule;
            sequence = c.sequence;
            updated_at = now;
          };
        } in
        let r = save_state c.store deps.page.key deps.lease patch in
        after-Filed api strategy deps lane (written (record c { world = world }) noted r) _
          (written-Filed api strategy deps lane (record c { world = world }) noted (λ e q. q) r
            (save_state-IsOutbox c.store deps.page.key deps.lease patch o) k)
          (λ a e q. q)

    recorded-Filed :
        (thrown : Error) (schedule : ScheduleState) (r : Result (Unit {0}) × Cycle W C)
        → IsSound r.1
        → IsSound (recorded api strategy deps lane start started_at thrown schedule r).1
    recorded-Filed thrown schedule (ok u, c) h = h
    recorded-Filed thrown schedule (err refused, c) h = elim (Bool-cases (is_lease_lost refused)) [
      | inl t ↦ rw t h
      | inr f ↦ rw f h
    ]

    fail_cycle-Filed :
        (thrown : Error) → Keeps (fail_cycle api strategy deps lane start started_at thrown)
    unfolding fail_cycle
    fail_cycle-Filed thrown c (o, h) =
        let (schedule, world) = schedule_failed api strategy deps lane start started_at thrown c in
        let patch : StatePatch = record no_patch {
          schedule = some schedule;
          sequence = some c.sequence;
          updated_at = some (now_of api strategy deps lane c);
        } in
        let r = save_state c.store deps.page.key deps.lease patch in
        elim (Bool-cases (is_lease_lost thrown)) [
          | inl t ↦ rw t (o, h)
          | inr f ↦
              rw f
                (elim (Bool-cases (is_aborted api strategy deps lane c && is_abort_error thrown)) [
                  | inl t ↦ rw t (o, h)
                  | inr g ↦ rw g (
                      recorded-Filed thrown schedule
                        (written (record c { world = world }) (λ e. e) r)
                        (written-Filed api strategy deps lane (record c { world = world }) (λ e. e)
                          (λ e q. q) r
                          (save_state-IsOutbox c.store deps.page.key deps.lease patch o) h))
                ])
        ]

    caught-Filed :
        (r : Result CycleResult × Cycle W C)
        → IsSound r.1
        → IsSound (caught api strategy deps lane start started_at r).1
    caught-Filed (err thrown, c) h = fail_cycle-Filed thrown c h
    caught-Filed (ok a, c) h = h

    -- The cycle ends, with its outbox filed.
    abbrev pub Ended : Option (Result CycleResult × Cycle W C) → Type 0
    Ended o =
        (r : Result CycleResult × Cycle W C) × (o ≡ some r)
        × IsOutbox (record_of r.1.store deps.page.key).outbox

    unless_hung-Ended :
        (r : Result CycleResult × Cycle W C)
        → IsSound r.1
        → Ended (unless_hung api strategy deps lane start started_at r)
    unless_hung-Ended r (o, h) = (r, rw h refl, o)

    after_pages-Ended :
        (force : Bool) (r : Result (Unit {0}) × Cycle W C)
        → IsSound r.1
        → Ended (after_pages api strategy deps lane start started_at force (some r))
    after_pages-Ended force r h = unless_hung-Ended _ (
        caught-Filed _ (
          after-Filed api strategy deps lane r
            (λ _ c.
              after (complete_scan api strategy deps lane c)
                (λ _. finish_cycle api strategy deps lane start started_at force))
            h
            λ _ c k.
              after-Filed api strategy deps lane (complete_scan api strategy deps lane c)
                (λ _. finish_cycle api strategy deps lane start started_at force)
                (complete_scan-Filed c k) (λ _. finish_cycle-Filed force)))

    run_pages-Ended :
        (force : Bool) (target : Option C) (c : Cycle W C)
        → IsSound c
        → Ended (run_pages api strategy deps lane start started_at force target c)
    unfolding run_pages
    run_pages-Ended force target c h =
        let before = lane_before api strategy deps lane start in
        let (r, e) = page_loop-Returns api strategy deps lane before force target c in
        let filed =
          page_loop-Filed api strategy deps lane before force target
            (loop_fuel api strategy deps lane) between c h r e in
        let (a, q, o) = after_pages-Ended force r filed in
        (a, ap (after_pages api strategy deps lane start started_at force) e ∙ q, o)

    begun-Ended :
        (s : MemoryStore) (world : W) (cursor : Result C) (target : Result (Option C))
        → IsOutbox (record_of s deps.page.key).outbox
        → Ended (begun api strategy deps lane start started_at s world cursor target)
    unfolding new_cycle
    begun-Ended s world (err thrown) target o = (_, refl, o)
    begun-Ended s world (ok cursor) (err thrown) o = (_, refl, o)
    begun-Ended s world (ok cursor) (ok target) o = run_pages-Ended _ target _ (o, refl)

    pub run_cycle-Ended :
        (s : MemoryStore) (world : W)
        → IsOutbox (record_of s deps.page.key).outbox
        → Ended (run_cycle api strategy deps lane start started_at s world)
    unfolding run_cycle
    run_cycle-Ended s world o = begun-Ended s world _ _ o
