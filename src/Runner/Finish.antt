-- ===== src/Runner/Finish.antt =====
-- src/core/runner.ts: the end of a cycle: the deletions of a full scan, the state that the lane and the
-- schedule are left in, and the failure of a cycle.
use watukuy.Base.{
  ◌+◌, Bool, not, ◌&&◌, Option, none, some, String, List, [], ◌∷◌, ◌++◌, or_else, is_some,
  if◌then◌else◌, length, string_eq,
}
use watukuy.Base.Map
use watukuy.Base.Map.{Map}
use watukuy.Types.{ResolvedPoller, PKey, Lane, CommitBatch, OutboxRow, ItemRow, deleted, ok}
use watukuy.Store.{MemoryStore, commit_poll}
use watukuy.Store.Queries.{stream_identities, load_versions}
use watukuy.Diff.{detect_deletes}
use watukuy.Dispatcher.{DrainResult}
use watukuy.Runner.Calls.{M, after, ◌>>=◌}
use watukuy.Runner.Page.{Subject, number_events, retained}
use watukuy.Runner.Cycle.{Strategy, Api, CycleDeps, Cycle, no_patch, written, now_of, drain}

-- The stored identities that no page had, batch by batch
unfoldable pub missing_in : List (List String) → List String → List String
unfolding detect_deletes
missing_in [] seen = []
missing_in (batch ∷ batches) seen = detect_deletes batch seen ++ missing_in batches seen

unfoldable pub missing_items : MemoryStore → PKey → List String → List String
unfolding missing_in stream_identities
missing_items s key seen = missing_in (stream_identities s key 1000) seen

abbrev pub deleted_subject : ResolvedPoller → String → Option ItemRow → List Subject
deleted_subject poller id none = []
deleted_subject poller id (some row) =
    record {
      type = deleted;
      identity = id;
      version = or_else row.version row.hash;
      item = retained poller.retain row;
      previous = retained poller.retain row;
    }
    ∷ []

unfoldable pub deleted_subjects : ResolvedPoller → Map String ItemRow → List String → List Subject
deleted_subjects poller rows [] = []
deleted_subjects poller rows (id ∷ ids) =
    deleted_subject poller id (Map.get id rows) ++ deleted_subjects poller rows ids

module _ {W C : Type 0} (api : Api W C) (strategy : Strategy C) (deps : CycleDeps)
    (lane : Lane) where
  -- A full scan that has seen the whole listing, and not because nothing was modified.
  unfoldable pub is_whole : Cycle W C → Bool
  is_whole c =
      c.done
      && (strategy.full_scan
          && (not c.truncated && (not (api.saw_not_modified c.world) && not c.halted)))

  unfoldable pub deleted_events : List String → Cycle W C → List OutboxRow
  unfolding number_events deleted_subjects
  deleted_events missing c =
      number_events deps.page lane (now_of api strategy deps lane c) (strategy.serialize c.cursor)
        c.sequence
        (deleted_subjects deps.page.poller (load_versions c.store deps.page.key missing) missing)

  unfoldable pub delete_batch : List String → List OutboxRow → Cycle W C → CommitBatch
  delete_batch missing events c = record {
    state_patch = record no_patch {
      schedule = some c.state.schedule;
      sequence = some (c.sequence + length events);
      updated_at = some (now_of api strategy deps lane c);
    };
    upserts = [];
    deletes = missing;
    events = events;
    log = is_some deps.page.poller.log_retention_ms;
    parked = [];
  }

  abbrev pub drained_last : DrainResult → M (Cycle W C) (Unit {0})
  drained_last d c = (ok tt, record c { last_drain = some d })

  abbrev pub deliver_deleted : List OutboxRow → M (Cycle W C) (Unit {0})
  deliver_deleted [] c = (ok tt, c)
  deliver_deleted (row ∷ rows) c = (drain api strategy deps lane >>= drained_last) c

  unfoldable pub delete_missing : List String → M (Cycle W C) (Unit {0})
  unfolding deleted_events delete_batch
  delete_missing [] c = (ok tt, c)
  delete_missing (id ∷ ids) c =
      let missing = id ∷ ids in
      let events = deleted_events missing c in
      let sequence = c.sequence + length events in
      after
        (written c
          (λ (e : Cycle W C). record e {
            sequence = sequence;
            state = record e.state {
              sequence = sequence;
              updated_at = now_of api strategy deps lane c;
            };
            deleted = c.deleted + length events;
          })
          (commit_poll c.store deps.page.key deps.lease (delete_batch missing events c)))
        (λ _. deliver_deleted events)

  unfoldable pub complete_scan : M (Cycle W C) (Unit {0})
  unfolding is_whole delete_missing missing_items
  complete_scan c =
      if is_whole c
      then delete_missing (missing_items c.store deps.page.key c.seen) c
      else (ok tt, c)
