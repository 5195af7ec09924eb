-- ===== src/Runner/Filing.antt =====
-- src/core/runner.ts: a page of a cycle keeps each row of the outbox filed under the id of its event, so
-- that the drain after it ends.
use watukuy.Base.{
  arith, Bool, true, false, Option, none, some, List, [], ◌∷◌, ◌≡◌, refl, sym, subst, All,
  if◌then◌else◌,
}
use watukuy.Types.{pkey_eq, Lane, LaneCursor, StatePatch, OutboxRow, Result, ok, err, Error}
use watukuy.Cursor.Timestamp.{AdvanceResult}
use watukuy.Store.{lost, MemoryStore, record_of, save_state, commit_poll, renew_lease}
use watukuy.Runner.Halt.{halt_schedule}
use watukuy.Dispatcher.{Drain, DrainResult}
use watukuy.Dispatcher.Outbox.{IsOutbox}
use watukuy.Dispatcher.Endings.{drain_outbox-IsOutbox}
use watukuy.Runner.Calls.{M, after}
use watukuy.Runner.Page.{PageCommit, process_page}
use watukuy.Runner.Events.{IsNew, process_page_lem}
use watukuy.Runner.Cycle.{
  Page, Strategy, Api, CycleDeps, Cycle, written, now_of, drain, drained, dispatcher,
  open_circuit_for_halt, rescheduled, renew_now, no_patch,
}
use watukuy.Runner.Pages.{
  advance_page, process_items, advanced, check_target, commit_page, Flow, after_halt, halting,
  after_drain, deliver_events, decide, after_delivery, take_page, noted, arrived, decided,
  page_batch, committed, deliver_page, store_page, settle_page, read_page, one_page_more,
}
use watukuy.Runner.Writes.{save_state-IsOutbox, commit_poll-IsOutbox, renew_lease-IsOutbox}

module _ {W C : Type 0} (api : Api W C) (strategy : Strategy C) (deps : CycleDeps)
    (lane : Lane) where
  -- The outbox is filed, and no drain so far hung.
  abbrev pub Filed : Cycle W C → Type 0
  Filed c = IsOutbox (record_of c.store deps.page.key).outbox × (c.hung ≡ false)

  abbrev pub KeepsFiled : {A : Type 0} → M (Cycle W C) A → Type 0
  KeepsFiled m = (c : Cycle W C) → Filed c → Filed (m c).1

  pub after-Filed :
      {A B : Type 0} (r : Result A × Cycle W C) (k : A → M (Cycle W C) B)
      → Filed r.1
      → ((a : A) → KeepsFiled (k a))
      → Filed (after r k).1
  after-Filed (err thrown, c) k h f = h
  after-Filed (ok a, c) k h f = f a c h

  pub written-Filed :
      (c : Cycle W C) (f : Cycle W C → Cycle W C)
      → ((e : Cycle W C) → Filed e → Filed (f e))
      → (r : Result (Unit {0}) × MemoryStore) → IsOutbox (record_of r.1 deps.page.key).outbox
      → c.hung ≡ false
      → Filed (written c f r).1
  written-Filed c f k (err thrown, s) o h = (o, h)
  written-Filed c f k (ok u, s) o h = k (record c { store = s }) (o, h)

  pub drain-Filed : KeepsFiled (drain api strategy deps lane)
  unfolding drain
  drain-Filed c (o, h) =
      let (r, e, f) =
        drain_outbox-IsOutbox api.dispatch (dispatcher api strategy deps lane) deps.has_consumer
          c.store c.world o in
      subst
        (λ (x : Option (Result DrainResult × Drain W)).
          Filed (drained api strategy deps lane c x).1)
        (sym e) (f, h)

  process_items-Filed :
      (force : Bool) (adv : AdvanceResult C) (k : PageCommit → M (Cycle W C) Flow)
      → ((commit : PageCommit) → All IsNew commit.events → KeepsFiled (k commit))
      → (c : Cycle W C) → Filed c
      → Filed (after (process_items api strategy deps lane force adv c) k).1
  unfolding process_items
  process_items-Filed force adv k f c h = by_result _ refl
    where
      by_result :
          (r : Result PageCommit)
          → process_page deps.page c.store lane
              (now_of api strategy deps lane c)
              adv.items
              c.sequence
              strategy.full_scan
              force
              (strategy.serialize adv.cursor)
            ≡ r
          → Filed (after (noted api strategy deps lane adv.items c r) k).1
      by_result (err thrown) e = h
      by_result (ok commit) e =
          f commit
            (process_page_lem deps.page c.store lane _ adv.items c.sequence _ force _ commit e).5 _
            h

  check_target-Filed : (target : Option C) → KeepsFiled (check_target api strategy deps lane target)
  unfolding check_target
  check_target-Filed none c h = h
  check_target-Filed (some target) c h = by_result (strategy.reached c.cursor target)
    where
      by_result : (r : Result Bool) → Filed (arrived api strategy deps lane c r).1
      by_result (err thrown) = h
      by_result (ok there) = h

  commit_page-Filed :
      (before : LaneCursor) (force : Bool) (commit : PageCommit)
      → All IsNew commit.events
      → KeepsFiled (commit_page api strategy deps lane before force commit)
  unfolding commit_page page_batch
  commit_page-Filed before force commit new c (o, h) =
      let batch = page_batch api strategy deps lane before force commit c in
      written-Filed c
        (committed api strategy deps lane batch c.sequence (now_of api strategy deps lane c))
        (λ e k. k) (commit_poll c.store deps.page.key deps.lease batch)
        (commit_poll-IsOutbox c.store deps.page.key deps.lease batch new o) h

  open_circuit_for_halt-Filed : KeepsFiled (open_circuit_for_halt api strategy deps lane)
  unfolding open_circuit_for_halt
  open_circuit_for_halt-Filed c (o, h) =
      let now = now_of api strategy deps lane c in
      let schedule = halt_schedule c.state.schedule deps.page.poller.circuit now in
      let patch : StatePatch = record no_patch {
        schedule = some schedule;
        updated_at = some now;
      } in
      written-Filed c (rescheduled api strategy deps lane schedule now) (λ e k. k)
        (save_state c.store deps.page.key deps.lease patch)
        (save_state-IsOutbox c.store deps.page.key deps.lease patch o) h

  after_halt-Filed : (halted : Bool) → KeepsFiled (after_halt api strategy deps lane halted)
  unfolding after_halt
  after_halt-Filed true c h =
      after-Filed (open_circuit_for_halt api strategy deps lane c)
        (λ _ (e : Cycle W C). (ok true, halting api strategy deps lane e))
        (open_circuit_for_halt-Filed c h) (λ a e k. k)
  after_halt-Filed false c h = h

  after_drain-Filed : (d : DrainResult) → KeepsFiled (after_drain api strategy deps lane d)
  unfolding after_drain
  after_drain-Filed d c h = after_halt-Filed d.halted (record c { last_drain = some d }) h

  deliver_events-Filed :
      (rows : List OutboxRow) → KeepsFiled (deliver_events api strategy deps lane rows)
  unfolding deliver_events
  deliver_events-Filed [] c h = h
  deliver_events-Filed (row ∷ rows) c h =
      after-Filed (drain api strategy deps lane c) (after_drain api strategy deps lane)
        (drain-Filed c h) after_drain-Filed

  either_way :
      (kept : Bool) (thrown : Error) (e : Cycle W C)
      → Filed e
      → Filed (if◌then◌else◌ {A = Result (Unit {0}) × Cycle W C} kept (ok tt, e) (err thrown, e)).1
  either_way true thrown e h = h
  either_way false thrown e h = h

  renew_now-Filed : KeepsFiled (renew_now api strategy deps lane)
  unfolding renew_now
  renew_now-Filed c (o, h) =
      let now = now_of api strategy deps lane c in
      let r = renew_lease c.store deps.page.key deps.lease deps.lease_ttl_ms now in
      either_way r.0 (lost deps.page.key deps.lease) (record c { store = r.1 })
        (renew_lease-IsOutbox c.store deps.page.key deps.lease deps.lease_ttl_ms now o, h)

  decide-Filed :
      (c : Cycle W C)
      → Filed c
      → Filed (decided api strategy deps lane (decide api strategy deps lane c)).1
  unfolding decide
  decide-Filed c h = ground (arith, h)

  after_delivery-Filed : (halt : Bool) → KeepsFiled (after_delivery api strategy deps lane halt)
  unfolding after_delivery
  after_delivery-Filed true c h = h
  after_delivery-Filed false c h =
      after-Filed (renew_now api strategy deps lane c)
        (λ _ (e : Cycle W C). decided api strategy deps lane (decide api strategy deps lane e))
        (renew_now-Filed c h) (λ a d. decide-Filed d)

  deliver_page-Filed :
      (commit : PageCommit) → KeepsFiled (deliver_page api strategy deps lane commit)
  unfolding deliver_page
  deliver_page-Filed commit c h =
      after-Filed (deliver_events api strategy deps lane commit.events c)
        (after_delivery api strategy deps lane) (deliver_events-Filed commit.events c h)
        after_delivery-Filed

  store_page-Filed :
      (before : LaneCursor) (force : Bool) (commit : PageCommit)
      → All IsNew commit.events
      → KeepsFiled (store_page api strategy deps lane before force commit)
  unfolding store_page
  store_page-Filed before force commit new c h =
      after-Filed (commit_page api strategy deps lane before force commit c)
        (λ _. deliver_page api strategy deps lane commit)
        (commit_page-Filed before force commit new c h) (λ _. deliver_page-Filed commit)

  settle_page-Filed :
      (before : LaneCursor) (force : Bool) (target : Option C) (adv : AdvanceResult C)
      (commit : PageCommit)
      → All IsNew commit.events
      → KeepsFiled (settle_page api strategy deps lane before force target adv commit)
  unfolding settle_page
  settle_page-Filed before force target adv commit new c h =
      let d = advanced api strategy deps lane adv commit c in
      after-Filed (check_target api strategy deps lane target d)
        (λ _. store_page api strategy deps lane before force commit) (check_target-Filed target d h)
        (λ _. store_page-Filed before force commit new)

  read_page-Filed :
      (before : LaneCursor) (force : Bool) (target : Option C) (adv : AdvanceResult C)
      → KeepsFiled (read_page api strategy deps lane before force target adv)
  unfolding read_page
  read_page-Filed before force target adv c h =
      process_items-Filed force adv (settle_page api strategy deps lane before force target adv)
        (settle_page-Filed before force target adv) c h

  pub take_page-Filed :
      (before : LaneCursor) (force : Bool) (target : Option C) (p : Page)
      → KeepsFiled (take_page api strategy deps lane before force target p)
  unfolding take_page advance_page
  take_page-Filed before force target p c h =
      let d = one_page_more api strategy deps lane c in
      after-Filed (advance_page api strategy deps lane p d)
        (read_page api strategy deps lane before force target) h
        (read_page-Filed before force target)
