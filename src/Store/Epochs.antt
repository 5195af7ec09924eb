-- ===== src/Store/Epochs.antt =====
-- The fencing token: epochs only grow, and a lease that was taken over never writes again.
use watukuy.Base.{
  ℕ, ◌+◌, ◌≤◌, ◌<◌, String, true, false, Option, none, some, ◌≡◌, refl, ◌∙◌, sym, ◌≢◌, List, [],
  ◌∷◌, arith, All, inl, inr, Option-cases, string_eq, subst, ==-refl,
}
use watukuy.Base.Map
use watukuy.Base.Map.{get-delete}
use watukuy.Types.{PKey, pkey_eq, Lease, err}
use watukuy.Store.{MemoryStore, new_store, record_of, lost, acquire_lease, delete_key}
use watukuy.Store.Rows.{
  KeyRecord, holds, apply_patch, apply_batch, park_row, retry_rows, retry_row, discard_rows,
}
use watukuy.Store.Calls.{
  Write, saves, commits, acks, attempts, parks, validates, write, write_effect, Call, acquires,
  renews, releases, writes, saves_unfenced, clears_items, retries, discards, prunes, deletes, step,
  run, effect,
}
use watukuy.Store.Fencing.{record_of-step, write_refused, step_rule}

-- The two fields that fencing reads.
abbrev SameFence : KeyRecord → KeyRecord → Type 0
SameFence a b = (a.lease ≡ b.lease) × (a.epoch_counter ≡ b.epoch_counter)

write_effect-fence : (w : Write) (rec : KeyRecord) → SameFence (write_effect w rec) rec
write_effect-fence (saves patch) rec = unfold apply_patch in (refl, refl)
write_effect-fence (commits batch) rec = unfold apply_batch in (refl, refl)
write_effect-fence (acks ids) rec = (refl, refl)
write_effect-fence (attempts id error next_at) rec = (refl, refl)
write_effect-fence (parks row) rec = unfold park_row in (refl, refl)
write_effect-fence (validates url_hash v) rec = (refl, refl)

retry_row-fence : (id : String) (rec : KeyRecord) → SameFence (retry_row id rec).1 rec
unfolding retry_row
retry_row-fence id rec = ground arith

retry_rows-fence : (ids : List String) (rec : KeyRecord) → SameFence (retry_rows ids rec).1 rec
unfolding retry_rows
retry_rows-fence [] rec = (refl, refl)
retry_rows-fence (id ∷ ids) rec =
    ground (arith, retry_row-fence id rec, retry_rows-fence ids (retry_row id rec).1)

discard_rows-fence : (ids : List String) (rec : KeyRecord) → SameFence (discard_rows ids rec).1 rec
unfolding discard_rows
discard_rows-fence [] rec = (refl, refl)
discard_rows-fence (id ∷ ids) rec =
    ground (arith, discard_rows-fence ids (record rec { parked = Map.delete id rec.parked }))

-- The epoch of the lease in force was given out by the counter.
abbrev WithinCounter : Option Lease → ℕ → Type 0
WithinCounter none n = Unit
WithinCounter (some l) n = l.epoch ≤ n

abbrev pub IsFenced : KeyRecord → Type 0
IsFenced rec = WithinCounter rec.lease rec.epoch_counter

effect-IsFenced : (c : Call) (rec : KeyRecord) → IsFenced rec → IsFenced (effect c rec)
unfolding holds
effect-IsFenced (acquires owner ttl now) rec h = ground arith
effect-IsFenced (renews lease ttl now) rec h = ground arith
effect-IsFenced (releases lease) rec h = ground arith
effect-IsFenced (writes lease w) rec h = ground (arith, write_effect-fence w rec)
effect-IsFenced (saves_unfenced patch) rec h = unfold apply_patch in h
effect-IsFenced clears_items rec h = h
effect-IsFenced (retries ids) rec h = ground (arith, retry_rows-fence ids rec)
effect-IsFenced (discards ids) rec h = ground (arith, discard_rows-fence ids rec)
effect-IsFenced (prunes older_than) rec h = h
effect-IsFenced deletes rec h = tt

-- A lease that is not in force, and whose epoch is spent.
abbrev pub Superseded : Lease → KeyRecord → Type 0
Superseded l rec = (holds rec l ≡ false) × (l.epoch ≤ rec.epoch_counter)

effect-Superseded :
    (l : Lease) (c : Call) (rec : KeyRecord)
    → c ≢ deletes
    → Superseded l rec
    → Superseded l (effect c rec)
unfolding holds
effect-Superseded l (acquires owner ttl now) rec n h = ground arith
effect-Superseded l (renews lease ttl now) rec n h = ground arith
effect-Superseded l (releases lease) rec n h = ground arith
effect-Superseded l (writes lease w) rec n h = ground (arith, write_effect-fence w rec)
effect-Superseded l (saves_unfenced patch) rec n h = unfold apply_patch in h
effect-Superseded l clears_items rec n h = h
effect-Superseded l (retries ids) rec n h = ground (arith, retry_rows-fence ids rec)
effect-Superseded l (discards ids) rec n h = ground (arith, discard_rows-fence ids rec)
effect-Superseded l (prunes older_than) rec n h = h
effect-Superseded l deletes rec n h = absurd (n refl)

-- From the empty store, every record that a history leaves is fenced.
run-IsFenced :
    (s : MemoryStore) (cs : List (PKey × Call)) (j : PKey)
    → ((k : PKey) → IsFenced (record_of s k))
    → IsFenced (record_of (run s cs) j)
unfolding run
run-IsFenced s [] j h = h j
run-IsFenced s ((key, c) ∷ cs) j h =
    run-IsFenced (step s (key, c)) cs j
      λ k. step_rule IsFenced s key k c (λ _. effect-IsFenced c (record_of s key) (h key)) (h k)

-- A history that does not delete the key.
abbrev pub Spares : PKey → PKey × Call → Type 0
Spares key (k, c) = k ≡ key → c ≢ deletes

run-Superseded :
    (s : MemoryStore) (cs : List (PKey × Call)) (key : PKey) (l : Lease)
    → All (Spares key) cs
    → Superseded l (record_of s key)
    → Superseded l (record_of (run s cs) key)
unfolding run
run-Superseded s [] key l n h = h
run-Superseded s ((k, c) ∷ cs) key l n h = run-Superseded (step s (k, c)) cs key l n.1 (
    step_rule (Superseded l) s k key c
      (λ e.
        effect-Superseded l c (record_of s k) (n.0 e)
          (subst (λ (j : PKey). Superseded l (record_of s j)) (sym e) h))
      h)

-- The record after an acquisition.
acquired_record :
    (s : MemoryStore) (key : PKey) (owner : String) (ttl now : ℕ)
    → record_of (acquire_lease s key owner ttl now).1 key
      ≡ effect (acquires owner ttl now) (record_of s key)
acquired_record s key owner ttl now =
    unfold step in record_of-step s key key (acquires owner ttl now) ∙ rw (==-refl key)

acquire_supersedes :
    (s : MemoryStore) (key : PKey) (owner : String) (ttl now : ℕ) (old new : Lease)
    → IsFenced (record_of s key)
    → holds (record_of s key) old ≡ true
    → (acquire_lease s key owner ttl now).0 ≡ some new
    → Superseded old (record_of (acquire_lease s key owner ttl now).1 key)
unfolding acquire_lease holds
acquire_supersedes s key owner ttl now old new f h e =
    ground (arith, acquired_record s key owner ttl now)

-- A lease that was in force in some history of the store, and whose key was then acquired by
-- anybody, never writes again: whatever happens later, as long as the key is not deleted, each of
-- its writes throws `LeaseLostError`, and what is kept under every key stays as it was.
pub stale_write_refused :
    (past later : List (PKey × Call)) (key : PKey) (owner : String) (ttl now : ℕ) (old new : Lease)
    (w : Write)
    → let s = run new_store past in
      let t = run (acquire_lease s key owner ttl now).1 later in
      holds (record_of s key) old ≡ true
      → (acquire_lease s key owner ttl now).0 ≡ some new
      → All (Spares key) later
      → ((write t key old w).0 ≡ err (lost key old))
        × ((j : PKey) → record_of (write t key old w).1 j ≡ record_of t j)
stale_write_refused past later key owner ttl now old new w h e n =
    write_refused (run (acquire_lease (run new_store past) key owner ttl now).1 later) key old w
      spent.0
  where
    spent :
        Superseded old
          (record_of (run (acquire_lease (run new_store past) key owner ttl now).1 later) key)
    spent =
        run-Superseded (acquire_lease (run new_store past) key owner ttl now).1 later key old n (
          acquire_supersedes (run new_store past) key owner ttl now old new
            (run-IsFenced new_store past key (λ k. unfold record_of Map.get in tt)) h e)

acquire_refused :
    (s : MemoryStore) (key : PKey) (owner : String) (ttl now : ℕ)
    → (acquire_lease s key owner ttl now).0 ≡ none
    → (l : Lease) × ((record_of s key).lease ≡ some l) × (now < l.expires_at) × (l.owner ≢ owner)
unfolding acquire_lease
acquire_refused s key owner ttl now e = elim (Option-cases (record_of s key).lease) [
  | inl n ↦ absurd (ground arith)
  | inr (l, p) ↦ (l, p, ground arith, λ q. ground (arith, string_eq.same_iff l.owner owner))
]

acquire_granted :
    (s : MemoryStore) (key : PKey) (owner : String) (ttl now : ℕ) (new : Lease)
    → (acquire_lease s key owner ttl now).0 ≡ some new
    → (new.owner ≡ owner)
      × (new.epoch ≡ (record_of s key).epoch_counter + 1)
      × (new.expires_at ≡ now + ttl)
      × (holds (record_of (acquire_lease s key owner ttl now).1 key) new ≡ true)
unfolding acquire_lease holds
acquire_granted s key owner ttl now new e =
    ground (arith, acquired_record s key owner ttl now, ==-refl owner)

-- Acquiring fails exactly while another owner's lease has not run out. Where it succeeds, the new
-- lease is the caller's, is in force, lasts for `ttl`, and its epoch is one above all given so far.
pub acquire_lease-exclusive :
    (s : MemoryStore) (key : PKey) (owner : String) (ttl now : ℕ)
    → ((acquire_lease s key owner ttl now).0 ≡ none
        → (l : Lease) × ((record_of s key).lease ≡ some l)
          × (now < l.expires_at)
          × (l.owner ≢ owner))
      × ((l : Lease)
          → (record_of s key).lease ≡ some l
          → now < l.expires_at
          → l.owner ≢ owner
          → (acquire_lease s key owner ttl now).0 ≡ none)
      × ((new : Lease)
          → (acquire_lease s key owner ttl now).0 ≡ some new
          → (new.owner ≡ owner)
            × (new.epoch ≡ (record_of s key).epoch_counter + 1)
            × (new.expires_at ≡ now + ttl)
            × (holds (record_of (acquire_lease s key owner ttl now).1 key) new ≡ true))
acquire_lease-exclusive s key owner ttl now = (
  acquire_refused s key owner ttl now,
  λ l p q n. unfold acquire_lease in ground (arith, string_eq.same_iff l.owner owner),
  acquire_granted s key owner ttl now,
)

-- Deleting a key starts its epochs again at 1: a lease with epoch 1 that its owner held before the
-- deletion is in force again once that owner acquires the key anew.
pub delete_key_revives :
    (s : MemoryStore) (key : PKey) (old : Lease) (ttl now : ℕ)
    → old.epoch ≡ 1
    → holds (record_of (acquire_lease (delete_key s key) key old.owner ttl now).1 key) old ≡ true
delete_key_revives s key old ttl now e =
    rw (acquired_record (delete_key s key) key old.owner ttl now) (
      unfold record_of delete_key holds in
      simp (get-delete, ==-refl) (ground (arith, ==-refl old.owner)))
