-- ===== src/Runner/Writes.antt =====
-- src/core/runner.ts: the store writes of a cycle keep each row of the outbox filed under the id of its
-- event.
use watukuy.Base.{ℕ, All, inl, inr, Bool-cases}
use watukuy.Types.{PKey, pkey_eq, Lease, StatePatch, CommitBatch}
use watukuy.Store.{MemoryStore, record_of, save_state, commit_poll, renew_lease}
use watukuy.Store.Rows.{KeyRecord, holds, apply_patch, apply_batch}
use watukuy.Store.Calls.{Write, saves, commits, write_effect, write, renews, step}
use watukuy.Store.Fencing.{step_rule}
use watukuy.Store.Calls.{writes}
use watukuy.Dispatcher.Outbox.{IsOutbox}
use watukuy.Runner.Filed.{set_all-IsOutbox}
use watukuy.Runner.Events.{IsNew}

-- What the write does to the record keeps its outbox filed.
abbrev KeepsOutbox : (KeyRecord → KeyRecord) → Type 0
KeepsOutbox f = (rec : KeyRecord) → IsOutbox rec.outbox → IsOutbox (f rec).outbox

pub write-IsOutbox :
    (s : MemoryStore) (key : PKey) (lease : Lease) (w : Write)
    → KeepsOutbox (write_effect w)
    → IsOutbox (record_of s key).outbox
    → IsOutbox (record_of (write s key lease w).1 key).outbox
unfolding step
write-IsOutbox s key lease w keeps o =
    step_rule (λ (rec : KeyRecord). IsOutbox rec.outbox) s key key (writes lease w)
      (λ _. elim (Bool-cases (holds (record_of s key) lease)) [
        | inl t ↦ rw t (keeps (record_of s key) o)
        | inr f ↦ rw f o
      ])
      o

pub save_state-IsOutbox :
    (s : MemoryStore) (key : PKey) (lease : Lease) (patch : StatePatch)
    → IsOutbox (record_of s key).outbox
    → IsOutbox (record_of (save_state s key lease patch).1 key).outbox
unfolding write
save_state-IsOutbox s key lease patch o =
    write-IsOutbox s key lease (saves patch) (λ rec h. unfold apply_patch in h) o

pub commit_poll-IsOutbox :
    (s : MemoryStore) (key : PKey) (lease : Lease) (batch : CommitBatch)
    → All IsNew batch.events
    → IsOutbox (record_of s key).outbox
    → IsOutbox (record_of (commit_poll s key lease batch).1 key).outbox
unfolding write
commit_poll-IsOutbox s key lease batch new o =
    write-IsOutbox s key lease (commits batch)
      (λ rec h. unfold apply_batch in set_all-IsOutbox batch.events rec.outbox new h) o

pub renew_lease-IsOutbox :
    (s : MemoryStore) (key : PKey) (lease : Lease) (ttl now : ℕ)
    → IsOutbox (record_of s key).outbox
    → IsOutbox (record_of (renew_lease s key lease ttl now).1 key).outbox
unfolding step
renew_lease-IsOutbox s key lease ttl now o =
    step_rule (λ (rec : KeyRecord). IsOutbox rec.outbox) s key key (renews lease ttl now)
      (λ _. elim (Bool-cases (holds (record_of s key) lease)) [ inl t ↦ rw t o | inr f ↦ rw f o ]) o
