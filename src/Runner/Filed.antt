-- ===== src/Runner/Filed.antt =====
-- src/core/runner.ts: the commit of a page keeps the outbox as the dispatcher needs it.
use watukuy.Base.{
  ℕ, Bool, String, List, [], ◌∷◌, ◌≡◌, refl, sym, ◌∙◌, subst, All, inl, inr, Bool-cases, string_eq,
  ==-refl,
}
use watukuy.Base.Map
use watukuy.Base.Map.{Map}
use watukuy.Types.{
  Value, PKey, Lease, CommitBatch, Lane, LaneCursor, OutboxRow, Result, ok, err, pkey_eq,
}
use watukuy.Store.{MemoryStore, record_of, commit_poll}
use watukuy.Store.Rows.{KeyRecord, holds, apply_batch}
use watukuy.Store.Calls.{commits, writes, effect, write}
use watukuy.Store.Fencing.{write-record_of}
use watukuy.Dispatcher.Outbox.{IsOutbox, IsFiled, All-set}
use watukuy.Runner.Page.{PageCommit, process_page}
use watukuy.Runner.Cycle.{Strategy, Api, CycleDeps, Cycle, written, now_of}
use watukuy.Runner.Pages.{commit_page, page_batch, committed}
use watukuy.Runner.Events.{IsNew, process_page_lem}

pub set_all-IsOutbox :
    (rows : List OutboxRow) (m : Map String OutboxRow)
    → All IsNew rows
    → IsOutbox m
    → IsOutbox (Map.set_all (λ (r : OutboxRow). r.event_id) rows m)
unfolding Map.set_all
set_all-IsOutbox [] m h o = o
set_all-IsOutbox (r ∷ rows) m h o =
    set_all-IsOutbox rows (Map.set r.event_id r m) h.1
      (All-set IsFiled r.event_id r m (refl, h.0.0) o)

commit_effect :
    (s : MemoryStore) (key : PKey) (lease : Lease) (batch : CommitBatch)
    → record_of (commit_poll s key lease batch).1 key
      ≡ effect (writes lease (commits batch)) (record_of s key)
unfolding write
commit_effect s key lease batch =
    (write-record_of s key key lease (commits batch)).1 ∙ rw (==-refl key) refl

module _ {W C : Type 0} (api : Api W C) (strategy : Strategy C) (deps : CycleDeps)
    (lane : Lane) where
  abbrev pub outbox_of : MemoryStore → Map String OutboxRow
  outbox_of s = (record_of s deps.page.key).outbox

  pub written-store :
      (c : Cycle W C) (f : Cycle W C → Cycle W C)
      → ((e : Cycle W C) → (f e).store ≡ e.store)
      → (r : Result (Unit {0}) × MemoryStore) → (written c f r).1.store ≡ r.1
  written-store c f h (err thrown, s) = refl
  written-store c f h (ok u, s) = h (record c { store = s })

  batch_outbox :
      (before : LaneCursor) (force : Bool) (commit : PageCommit) (c : Cycle W C) (rec : KeyRecord)
      → All IsNew commit.events
      → IsOutbox rec.outbox
      → IsOutbox (apply_batch (page_batch api strategy deps lane before force commit c) rec).outbox
  unfolding apply_batch page_batch
  batch_outbox before force commit c rec h o = set_all-IsOutbox commit.events rec.outbox h o

  -- The commit of a page that was processed keeps each row of the outbox filed under the id of its
  -- event, whether the write is granted or refused, so that the drain after it ends.
  pub commit_page-IsOutbox :
      (before : LaneCursor) (force full : Bool) (c : Cycle W C) (s : MemoryStore) (now sequence : ℕ)
      (raw : List Value) (cursor : String) (commit : PageCommit)
      → process_page deps.page s lane now raw sequence full force cursor ≡ ok commit
      → IsOutbox (outbox_of c.store)
      → IsOutbox (outbox_of (commit_page api strategy deps lane before force commit c).1.store)
  unfolding commit_page
  commit_page-IsOutbox before force full c s now sequence raw cursor commit h o =
      let batch = page_batch api strategy deps lane before force commit c in
      let new = process_page_lem deps.page s lane now raw sequence full force cursor commit h in
      let key = deps.page.key in
      subst (λ (t : MemoryStore). IsOutbox (outbox_of t))
        (sym (
          written-store c
            (committed api strategy deps lane batch c.sequence (now_of api strategy deps lane c))
            (λ e. refl) (commit_poll c.store key deps.lease batch)))
        (subst (λ (r : KeyRecord). IsOutbox r.outbox)
          (sym (commit_effect c.store key deps.lease batch))
          (elim (Bool-cases (holds (record_of c.store key) deps.lease)) [
            | inl t ↦ rw t (batch_outbox before force commit c (record_of c.store key) new.5 o)
            | inr f ↦ rw f o
          ]))
