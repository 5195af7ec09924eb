-- ===== src/Store/Delivery.antt =====
-- No event is lost: the ways in which an event leaves the outbox.
use watukuy.Base.{
  ℕ, String, true, Option, none, some, ◌≡◌, refl, sym, ◌⊎◌, inl, inr, List, [], ◌∷◌, arith, ◌==◌,
  Bool-cases, Option-cases, string_eq, elem, subst, ==-true,
}
use watukuy.Base.Map
use watukuy.Base.Map.{Map}
use watukuy.Base.Map.{get-set, get-delete, get-delete_all, has-set, has-set_all, get-set_self}
use watukuy.Types.{PKey, pkey_eq, ParkedRow, WatukuyEvent, OutboxRow, SerializedError}
use watukuy.Store.{MemoryStore, record_of}
use watukuy.Store.Rows.{
  KeyRecord, holds, apply_patch, apply_batch, bump_attempt, attempted, park_row, retry_row,
  retry_rows, discard_rows, retryable, requeued,
}
use watukuy.Store.Calls.{
  Write, saves, commits, acks, attempts, parks, validates, write_effect, Call, acquires, renews,
  releases, writes, saves_unfenced, clears_items, retries, discards, prunes, deletes, step, run,
  effect,
}
use watukuy.Store.Fencing.{record_of-step}

-- The outbox of the record holds the event.
abbrev pub Queued : String → KeyRecord → Type 0
Queued id rec = Map.has id rec.outbox ≡ true

-- The write takes the event out of the outbox: an acknowledgement of it, or a parking of it.
abbrev pub TakesOut : String → Write → Type 0
TakesOut id (acks ids) = elem id ids ≡ true
TakesOut id (parks row) = (event : WatukuyEvent) × (row.event ≡ some event) × (event.id ≡ id)
TakesOut id _ = ⊥

bump_attempt-Queued :
    (id id' : String) (error : Option SerializedError) (next_at : Option ℕ)
    (m : Map String OutboxRow) (o : Option OutboxRow)
    → Map.get id' m ≡ o
    → Map.has id m ≡ true
    → Map.has id (bump_attempt id' error next_at m) ≡ true
unfolding bump_attempt
bump_attempt-Queued id id' error next_at m none e h = rw (e, bump_attempt) h
bump_attempt-Queued id id' error next_at m (some row) e h =
    rw (e, bump_attempt) (has-set id' id (attempted error next_at row) m h)

park_row-Queued :
    (id : String) (row : ParkedRow) (o : Option WatukuyEvent) (rec : KeyRecord)
    → row.event ≡ o
    → Queued id rec
    → Queued id (park_row row rec) ⊎ TakesOut id (parks row)
unfolding park_row
park_row-Queued id row none rec e h = rw e (inl h)
park_row-Queued id row (some event) rec e h = elim (Bool-cases (event.id == id)) [
  | inl t ↦ inr (event, e, ==-true event.id id t)
  | inr f ↦ inl (rw (e, get-delete, f) h)
]

write_effect-Queued :
    (id : String) (w : Write) (rec : KeyRecord)
    → Queued id rec
    → Queued id (write_effect w rec) ⊎ TakesOut id w
write_effect-Queued id (saves patch) rec h = unfold apply_patch in inl h
write_effect-Queued id (commits batch) rec h =
    unfold apply_batch in inl (has-set_all (λ r. r.event_id) batch.events id rec.outbox h)
write_effect-Queued id (acks ids) rec h = elim (Bool-cases (elem id ids)) [
  | inl t ↦ inr t
  | inr f ↦ inl (rw (get-delete_all, f) h)
]
write_effect-Queued id (attempts id' error next_at) rec h =
    inl (bump_attempt-Queued id id' error next_at rec.outbox (Map.get id' rec.outbox) refl h)
write_effect-Queued id (parks row) rec h = park_row-Queued id row row.event rec refl h
write_effect-Queued id (validates url_hash v) rec h = inl h

pub retry_row-Queued :
    (id id' : String) (rec : KeyRecord) → Queued id rec → Queued id (retry_row id' rec).1
unfolding retry_row
retry_row-Queued id id' rec h = elim (Option-cases (retryable (Map.get id' rec.parked))) [
  | inl n ↦ rw (n, retry_row) h
  | inr ((event, at), e) ↦ rw (e, retry_row) (has-set event.id id (requeued event at) rec.outbox h)
]

pub retry_rows-Queued :
    (id : String) (ids : List String) (rec : KeyRecord)
    → Queued id rec
    → Queued id (retry_rows ids rec).1
unfolding retry_rows
retry_rows-Queued id [] rec h = h
retry_rows-Queued id (id' ∷ ids) rec h =
    retry_rows-Queued id ids (retry_row id' rec).1 (retry_row-Queued id id' rec h)

discard_rows-outbox :
    (ids : List String) (rec : KeyRecord) → (discard_rows ids rec).1.outbox ≡ rec.outbox
unfolding discard_rows
discard_rows-outbox [] rec = refl
discard_rows-outbox (id ∷ ids) rec =
    discard_rows-outbox ids (record rec { parked = Map.delete id rec.parked })

-- The call settles the event: an acknowledgement or a parking under the lease in force, or the
-- deletion of the whole key.
abbrev pub Settles : String → Call → KeyRecord → Type 0
Settles id (writes lease w) rec = (holds rec lease ≡ true) × TakesOut id w
Settles id deletes rec = Unit
Settles id _ rec = ⊥

effect-Queued :
    (id : String) (c : Call) (rec : KeyRecord)
    → Queued id rec
    → Queued id (effect c rec) ⊎ Settles id c rec
effect-Queued id (acquires owner ttl now) rec h = inl (ground arith)
effect-Queued id (renews lease ttl now) rec h = inl (ground arith)
effect-Queued id (releases lease) rec h = inl (ground arith)
effect-Queued id (writes lease w) rec h = elim (Bool-cases (holds rec lease)) [
  | inl t ↦ rw t (fenced_write t (write_effect-Queued id w rec h))
  | inr f ↦ rw f (inl h)
]
  where
    fenced_write :
        holds rec lease ≡ true
        → Queued id (write_effect w rec) ⊎ TakesOut id w
        → Queued id (write_effect w rec) ⊎ ((true ≡ true) × TakesOut id w)
    fenced_write t (inl q) = inl q
    fenced_write t (inr o) = inr (refl, o)
effect-Queued id (saves_unfenced patch) rec h = unfold apply_patch in inl h
effect-Queued id clears_items rec h = inl h
effect-Queued id (retries ids) rec h = inl (retry_rows-Queued id ids rec h)
effect-Queued id (discards ids) rec h = inl (rw discard_rows-outbox h)
effect-Queued id (prunes older_than) rec h = inl h
effect-Queued id deletes rec h = inr tt

-- Some call of the history, made on the key, settles the event.
abbrev pub Settled : String → PKey → MemoryStore → List (PKey × Call) → Type 0
Settled id key s [] = ⊥
Settled id key s ((k, c) ∷ cs) =
    ((k ≡ key) × Settles id c (record_of s key)) ⊎ Settled id key (step s (k, c)) cs

abbrev Stays : String → PKey → MemoryStore → PKey → Call → Type 0
Stays id key s k c =
    Queued id (record_of (step s (k, c)) key) ⊎ ((k ≡ key) × Settles id c (record_of s key))

step-Queued_own :
    (id : String) (key : PKey) (s : MemoryStore) (k : PKey) (c : Call)
    → k == key ≡ true
    → Queued id (effect c (record_of s k)) ⊎ Settles id c (record_of s k)
    → Stays id key s k c
step-Queued_own id key s k c t (inl q) = inl (rw (record_of-step s k key c, t) q)
step-Queued_own id key s k c t (inr st) =
    let e = ==-true k key t in inr (e, subst (λ (j : PKey). Settles id c (record_of s j)) e st)

step-Queued :
    (id : String) (key : PKey) (s : MemoryStore) (k : PKey) (c : Call)
    → Queued id (record_of s key)
    → Stays id key s k c
step-Queued id key s k c h = elim (Bool-cases (k == key)) [
  | inl t ↦ step-Queued_own id key s k c t (
      effect-Queued id c (record_of s k)
        (subst (λ (j : PKey). Queued id (record_of s j)) (sym (==-true k key t)) h))
  | inr f ↦ inl (rw (record_of-step s k key c, f) h)
]

-- At-least-once at the store: through any history an event that is in the outbox stays there until
-- a call on its key acknowledges it or parks it, under the lease in force, or deletes the key.
-- Commits, retries, refused writes and calls on other keys never lose it.
pub run-Queued :
    (id : String) (key : PKey) (s : MemoryStore) (cs : List (PKey × Call))
    → Queued id (record_of s key)
    → Queued id (record_of (run s cs) key) ⊎ Settled id key s cs
unfolding run
run-Queued id key s [] h = inl h
run-Queued id key s ((k, c) ∷ cs) h =
    go (run-Queued id key (step s (k, c)) cs) (step-Queued id key s k c h)
  where
    go :
        (Queued id (record_of (step s (k, c)) key)
          → Queued id (record_of (run (step s (k, c)) cs) key) ⊎ Settled id key (step s (k, c)) cs)
        → Stays id key s k c
        → Queued id (record_of (run (step s (k, c)) cs) key) ⊎ Settled id key s ((k, c) ∷ cs)
    go ih (inr now) = inr (inl now)
    go ih (inl q) = elim (ih q) [ inl r ↦ inl r | inr later ↦ inr (inr later) ]

-- A parked event is kept: the parked row of a granted parking holds it.
pub park_event-kept :
    (row : ParkedRow) (rec : KeyRecord) → Map.get row.id (park_row row rec).parked ≡ some row
unfolding park_row
park_event-kept row rec = get-set_self row.id row rec.parked
