-- ===== src/Runner/Pages.antt =====
-- src/core/runner.ts: the loop of `runCycle` over the pages that a fetch function gives.
use watukuy.Base.{
  ℕ, zero, suc, ◌+◌, ◌-◌, ◌*◌, Bool, true, false, not, ◌||◌, Option, none, some, List, [], ◌∷◌, leb,
  nat_eqb, or_else, is_some, if◌then◌else◌, length,
}
use watukuy.Types.{
  Value, Lane, LaneCursor, with_lane, CommitBatch, OutboxRow, Result, ok, err, aborted,
}
use watukuy.Runner.Calls.{M, ◌>>=◌, ◌>>◌, modify}
use watukuy.Cursor.Timestamp.{AdvanceResult}
use watukuy.Store.{commit_poll}
use watukuy.Dispatcher.{DrainResult}
use watukuy.Runner.Lanes.{lane_next}
use watukuy.Runner.Page.{PageCommit, process_page, seen_after}
use watukuy.Runner.Cycle.{
  Page, Pull, page, exhausted, broken, Strategy, Api, CycleDeps, Cycle, no_patch, written,
  poller_of, now_of, is_aborted, page_cap, past_deadline, drain, open_circuit_for_halt, renew_now,
}

-- Where the loop goes after a page: on with the call, to the next call, or out.
pub data Flow : Type 0 where
  go_on : Flow
  leave_call : Flow
  leave_loop : Flow

-- The loop stands between two calls of fetch, or in one, after some of its pages.
pub data Place (C : Type 0) : Type 0 where
  between : Place C
  calling : C → ℕ → Place C

module _ {W C : Type 0} (api : Api W C) (strategy : Strategy C) (deps : CycleDeps)
    (lane : Lane) where
  abbrev Run : Type 0 → Type 0
  Run A = M (Cycle W C) A

  unfoldable pub advance_page : Page → Run (AdvanceResult C)
  advance_page p c = (
    strategy.advance c.cursor (record {
      items = p.items;
      page_cursor = p.cursor;
      has_more = p.has_more;
      now = now_of api strategy deps lane c;
    }),
    c,
  )

  abbrev pub noted : List Value → Cycle W C → Result PageCommit → Result PageCommit × Cycle W C
  noted raw c (err thrown) = (err thrown, c)
  noted raw c (ok commit) =
      (ok commit, record c { seen = seen_after deps.page strategy.full_scan raw c.seen })

  -- `processPage`, on the items that the strategy passes on
  unfoldable pub process_items : Bool → AdvanceResult C → Run PageCommit
  unfolding process_page seen_after
  process_items force adv c = noted adv.items c (
      process_page deps.page c.store lane (now_of api strategy deps lane c) adv.items c.sequence
        strategy.full_scan force (strategy.serialize adv.cursor))

  abbrev pub advanced : AdvanceResult C → PageCommit → Cycle W C → Cycle W C
  advanced adv commit c = record c {
    sequence = commit.sequence;
    items = c.items + length adv.items;
    created = c.created + commit.created_count;
    updated = c.updated + commit.updated_count;
    cursor = adv.cursor;
    done = adv.done;
  }

  abbrev pub arrived : Cycle W C → Result Bool → Result (Unit {0}) × Cycle W C
  arrived c (err thrown) = (err thrown, c)
  arrived c (ok there) = (ok tt, record c { done = there || c.done })

  -- A backfill is done where it has reached its target.
  unfoldable pub check_target : Option C → Run (Unit {0})
  check_target none c = (ok tt, c)
  check_target (some target) c = arrived c (strategy.reached c.cursor target)

  unfoldable pub page_batch : LaneCursor → Bool → PageCommit → Cycle W C → CommitBatch
  unfolding lane_next
  page_batch before force commit c = record {
    state_patch = record no_patch {
      lanes = some (
          with_lane c.state.lanes lane (lane_next lane before force (strategy.serialize c.cursor)));
      schedule = some c.state.schedule;
      sequence = some c.sequence;
      schema_version = some (some (poller_of api strategy deps lane).schema_version);
      updated_at = some (now_of api strategy deps lane c);
    };
    upserts = commit.upserts;
    deletes = [];
    events = commit.events;
    log = is_some (poller_of api strategy deps lane).log_retention_ms;
    parked = commit.parked;
  }

  abbrev pub committed : CommitBatch → ℕ → ℕ → Cycle W C → Cycle W C
  committed batch sequence now e = record e {
    state = record e.state {
      lanes = or_else batch.state_patch.lanes e.state.lanes;
      sequence = sequence;
      schema_version = some deps.page.poller.schema_version;
      updated_at = now;
    };
  }

  -- The commit of a page: its rows, its events and the cursor after it, in one write.
  unfoldable pub commit_page : LaneCursor → Bool → PageCommit → Run (Unit {0})
  unfolding page_batch
  commit_page before force commit c =
      let batch = page_batch before force commit c in
      written c (committed batch c.sequence (now_of api strategy deps lane c))
        (commit_poll c.store deps.page.key deps.lease batch)

  abbrev pub halting : Cycle W C → Cycle W C
  halting c = record c { halted = true; done = true }

  unfoldable pub after_halt : Bool → Run Bool
  unfolding open_circuit_for_halt
  after_halt true c =
      (open_circuit_for_halt api strategy deps lane >> λ (e : Cycle W C). (ok true, halting e)) c
  after_halt false c = (ok false, c)

  unfoldable pub after_drain : DrainResult → Run Bool
  unfolding after_halt
  after_drain d c = after_halt d.halted (record c { last_drain = some d })

  -- The events of a page are delivered at once; `true` is a halt.
  unfoldable pub deliver_events : List OutboxRow → Run Bool
  unfolding drain after_drain
  deliver_events [] c = (ok false, c)
  deliver_events (row ∷ rows) c = ((drain api strategy deps lane) >>= after_drain) c

  unfoldable pub decide : Cycle W C → Flow × Cycle W C
  decide c =
      if c.done || is_aborted api strategy deps lane c
      then (leave_call, c)
      else if past_deadline api strategy deps lane c
          || leb (page_cap api strategy deps lane) c.pages
      then (leave_loop, record c { truncated = true })
      else (go_on, c)

  abbrev pub decided : Flow × Cycle W C → Result Flow × Cycle W C
  decided (flow, c) = (ok flow, c)

  -- Between pages the lease is renewed.
  unfoldable pub after_delivery : Bool → Run Flow
  unfolding renew_now decide
  after_delivery true c = (ok leave_loop, c)
  after_delivery false c = ((renew_now api strategy deps lane) >> λ e. decided (decide e)) c

  -- The steps of a page, each with what follows it.
  unfoldable pub deliver_page : PageCommit → Run Flow
  unfolding deliver_events after_delivery
  deliver_page commit = do halt ← deliver_events commit.events; after_delivery halt

  unfoldable pub store_page : LaneCursor → Bool → PageCommit → Run Flow
  unfolding commit_page deliver_page
  store_page before force commit = commit_page before force commit >> deliver_page commit

  unfoldable pub settle_page :
      LaneCursor → Bool → Option C → AdvanceResult C → PageCommit → Run Flow
  unfolding check_target store_page
  settle_page before force target adv commit =
      modify (advanced adv commit) >> check_target target >> store_page before force commit

  unfoldable pub read_page : LaneCursor → Bool → Option C → AdvanceResult C → Run Flow
  unfolding process_items settle_page
  read_page before force target adv = do
    commit ← process_items force adv
    settle_page before force target adv commit

  abbrev pub one_page_more : Cycle W C → Cycle W C
  one_page_more c = record c { pages = c.pages + 1 }

  unfoldable pub take_page : LaneCursor → Bool → Option C → Page → Run Flow
  unfolding advance_page read_page
  take_page before force target p =
      modify one_page_more >> do adv ← advance_page p; read_page before force target adv

  -- A call that gives no page ends the cycle, and so does one that gave several.
  abbrev pub call_ended : ℕ → Cycle W C → Cycle W C
  call_ended n c = record c { done = c.done || not (nat_eqb n 1) }

  abbrev pub placed : C → ℕ → Result Flow × Cycle W C → Result (Option (Place C)) × Cycle W C
  placed from n (err thrown, c) = (err thrown, c)
  placed from n (ok go_on, c) = (ok (some (calling from n)), c)
  placed from n (ok leave_call, c) = (ok (some between), call_ended n c)
  placed from n (ok leave_loop, c) = (ok none, c)

  abbrev pub pulled :
      LaneCursor
      → Bool
      → Option C
      → C
      → ℕ
      → Cycle W C
      → Pull
      → Result (Option (Place C)) × Cycle W C
  pulled before force target from n c (page p) =
      placed from (n + 1) (take_page before force target p c)
  pulled before force target from n c exhausted = (ok (some between), call_ended n c)
  pulled before force target from n c (broken thrown) = (err thrown, c)

  abbrev pub begun : Cycle W C → Result C → Result (Option (Place C)) × Cycle W C
  begun c (err thrown) = (err thrown, c)
  begun c (ok from) = (ok (some (calling from 0)), c)

  -- The tests before a call: done, aborted, past the deadline or at the cap; `none` is the end of the
  -- loop. The reason of an aborted signal is taken to be an AbortError.
  unfoldable pub begin_if : Bool → Bool → Bool → Cycle W C → Result (Option (Place C)) × Cycle W C
  begin_if true stop full c = (ok none, c)
  begin_if false true full c = (err aborted, c)
  begin_if false false true c = (ok none, record c { truncated = true })
  begin_if false false false c = begun c (
      if nat_eqb c.pages 0
      then strategy.for_fetch c.cursor (now_of api strategy deps lane c)
      else ok c.cursor)

  unfoldable pub begin_call : Cycle W C → Result (Option (Place C)) × Cycle W C
  unfolding begin_if
  begin_call c =
      begin_if c.done (is_aborted api strategy deps lane c)
        (past_deadline api strategy deps lane c || leb (page_cap api strategy deps lane) c.pages) c

  unfoldable pub step_loop :
      LaneCursor → Bool → Option C → Place C → Cycle W C → Result (Option (Place C)) × Cycle W C
  unfolding begin_call take_page
  step_loop before force target between c = begin_call c
  step_loop before force target (calling from n) c =
      let (answer, world) = api.fetch lane from (c.pages + 1 - n) n c.world in
      pulled before force target from n (record c { world = world }) answer

  abbrev pub went_on :
      Result (Option (Place C)) × Cycle W C
      → (Place C → Cycle W C → Option (Result (Unit {0}) × Cycle W C))
      → Option (Result (Unit {0}) × Cycle W C)
  went_on (err thrown, c) more = some (err thrown, c)
  went_on (ok none, c) more = some (ok tt, c)
  went_on (ok (some place), c) more = more place c

  -- `outer: while (!done)`; `none` is a loop out of fuel.
  unfoldable pub page_loop :
      LaneCursor
      → Bool
      → Option C
      → ℕ
      → Place C
      → Cycle W C
      → Option (Result (Unit {0}) × Cycle W C)
  unfolding step_loop
  page_loop before force target zero place c = none
  page_loop before force target (suc fuel) place c =
      went_on (step_loop before force target place c) (page_loop before force target fuel)

  -- Three turns for each page that the cap allows, and three for the last call.
  unfoldable pub loop_fuel : ℕ
  loop_fuel = 3 * page_cap api strategy deps lane + 3
