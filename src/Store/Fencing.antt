-- ===== src/Store/Fencing.antt =====
-- Each call works on the record of its own key alone, and every write is fenced by the lease.
use watukuy.Base.{
  ℕ, String, true, false, Option, none, some, ◌≡◌, refl, ap, List, [], ◌∷◌, arith, if◌then◌else◌,
  ◌==◌, inl, inr, Bool-cases, string_eq,
}
use watukuy.Base.Map
use watukuy.Base.Map.{get-set, get-delete}
use watukuy.Types.{PKey, pkey_eq, Lease, ok, err}
use watukuy.Store.{
  MemoryStore, record_of, put, peek, fenced, lost, save_state, commit_poll, ack_events,
  record_attempt, park_event, set_validator, acquire_lease, renew_lease, release_lease,
  save_state_unfenced, clear_items, retry_parked, discard_parked, prune_log, delete_key, in_place,
  reported, pruned,
}
use watukuy.Store.Rows.{KeyRecord, empty_record, holds, retry_rows, discard_rows}
use watukuy.Store.Calls.{
  Write, saves, commits, acks, attempts, parks, validates, write, write_effect, Call, acquires,
  renews, releases, writes, saves_unfenced, clears_items, retries, discards, prunes, deletes, step,
  effect,
}

-- Filing a record changes what is read under its key, and under no other.
record_of-put :
    (s : MemoryStore) (key j : PKey) (rec : KeyRecord)
    → record_of (put s key rec) j ≡ (if key == j then rec else record_of s j)
unfolding record_of put
record_of-put s key j rec = simp get-set (ground arith)

-- Filing the record that is there changes nothing that is read.
record_of-put_same :
    (s : MemoryStore) (key j : PKey) → record_of (put s key (record_of s key)) j ≡ record_of s j
record_of-put_same s key j =
    rw record_of-put (ground (arith, pkey_eq.same_iff key j, ap (record_of s)))

-- A write behind the fence acts on the record of its key, or on nothing.
fenced_lem :
    (s : MemoryStore) (key j : PKey) (lease : Lease) (f : KeyRecord → KeyRecord)
    → ((fenced s key lease f).0
        ≡ (if holds (record_of s key) lease then ok tt else err (lost key lease)))
      × (record_of (fenced s key lease f).1 j ≡ (
          if key == j
          then (if holds (record_of s key) lease then f (record_of s key) else record_of s key)
          else record_of s j))
unfolding fenced
fenced_lem s key j lease f =
    ground
      (arith, record_of-put s key j (f (record_of s key)), record_of-put s key j (record_of s key))

-- The methods that leave an absent record absent act on it as on the empty record.
pub retry_rows-empty : (ids : List String) → retry_rows ids empty_record ≡ (0, empty_record)
unfolding retry_rows Map.get
retry_rows-empty [] = refl
retry_rows-empty (id ∷ ids) = rw (retry_rows-empty ids)

pub discard_rows-empty : (ids : List String) → discard_rows ids empty_record ≡ (0, empty_record)
unfolding discard_rows Map.get Map.delete
discard_rows-empty [] = refl
discard_rows-empty (id ∷ ids) = rw (discard_rows-empty ids)

-- A write through the store is fenced, whichever method it is: with the lease in force it succeeds
-- and acts on the record of its key alone; with any other lease it throws `LeaseLostError` and what
-- is kept under every key stays as it was.
pub write-record_of :
    (s : MemoryStore) (key j : PKey) (lease : Lease) (w : Write)
    → ((write s key lease w).0
        ≡ (if holds (record_of s key) lease then ok tt else err (lost key lease)))
      × (record_of (write s key lease w).1 j
          ≡ (if key == j then effect (writes lease w) (record_of s key) else record_of s j))
unfolding write save_state commit_poll ack_events record_attempt park_event set_validator
write-record_of s key j lease (saves patch) = fenced_lem s key j lease (write_effect (saves patch))
write-record_of s key j lease (commits batch) =
    fenced_lem s key j lease (write_effect (commits batch))
write-record_of s key j lease (acks ids) = fenced_lem s key j lease (write_effect (acks ids))
write-record_of s key j lease (attempts id error next_at) =
    fenced_lem s key j lease (write_effect (attempts id error next_at))
write-record_of s key j lease (parks row) = fenced_lem s key j lease (write_effect (parks row))
write-record_of s key j lease (validates url_hash v) =
    fenced_lem s key j lease (write_effect (validates url_hash v))

-- A method that edits the record in place, and does nothing where there is none.
edited :
    (s : MemoryStore) (key j : PKey) (rec : KeyRecord) (f : KeyRecord → KeyRecord)
    → Map.get key s.records ≡ some rec
    → record_of (record { records = Map.set key (f rec) s.records }) j
      ≡ (if key == j then f (record_of s key) else record_of s j)
unfolding record_of
edited s key j rec f e = simp (get-set, e) (ground arith)

absent :
    (s : MemoryStore) (key j : PKey) (f : KeyRecord → KeyRecord)
    → Map.get key s.records ≡ none
    → f empty_record ≡ empty_record
    → record_of s j ≡ (if key == j then f (record_of s key) else record_of s j)
unfolding record_of
absent s key j f e h = ground (arith, pkey_eq.same_iff key j, ap (λ k. Map.get k s.records))

in_place_effect :
    (s : MemoryStore) (key j : PKey) (f : KeyRecord → KeyRecord) (o : Option KeyRecord)
    → f empty_record ≡ empty_record
    → Map.get key s.records ≡ o
    → record_of (in_place s key f o) j ≡ (if key == j then f (record_of s key) else record_of s j)
in_place_effect s key j f none h e = absent s key j f e h
in_place_effect s key j f (some rec) h e = edited s key j rec f e

reported_effect :
    (s : MemoryStore) (key j : PKey) (f : KeyRecord → ℕ × KeyRecord) (o : Option KeyRecord)
    → (f empty_record).1 ≡ empty_record
    → Map.get key s.records ≡ o
    → record_of (reported s key f o).1 j
      ≡ (if key == j then (f (record_of s key)).1 else record_of s j)
reported_effect s key j f none h e = absent s key j (λ rec. (f rec).1) e h
reported_effect s key j f (some rec) h e = edited s key j rec (λ r. (f r).1) e

-- The store refines one automaton for each key: a call runs the automaton of its key, and leaves
-- the records of all other keys as they were.
pub record_of-step :
    (s : MemoryStore) (key j : PKey) (c : Call)
    → record_of (step s (key, c)) j
      ≡ (if key == j then effect c (record_of s key) else record_of s j)
unfolding step
record_of-step s key j (acquires owner ttl now) =
    unfold acquire_lease in
    ground (
      arith,
      record_of-put s key j (effect (acquires owner ttl now) (record_of s key)),
      record_of-put s key j (record_of s key),
    )
record_of-step s key j (renews lease ttl now) =
    unfold renew_lease in
    ground (
      arith,
      record_of-put s key j (effect (renews lease ttl now) (record_of s key)),
      record_of-put s key j (record_of s key),
    )
record_of-step s key j (releases lease) =
    unfold release_lease in record_of-put s key j (effect (releases lease) (record_of s key))
record_of-step s key j (writes lease w) = (write-record_of s key j lease w).1
record_of-step s key j (saves_unfenced patch) =
    unfold save_state_unfenced in
    record_of-put s key j (effect (saves_unfenced patch) (record_of s key))
record_of-step s key j clears_items =
    unfold clear_items in
    in_place_effect s key j (effect clears_items) (peek s key) refl (unfold peek in refl)
record_of-step s key j (retries ids) =
    unfold retry_parked in
    reported_effect s key j (retry_rows ids) (peek s key) (ap (λ r. r.1) (retry_rows-empty ids))
      (unfold peek in refl)
record_of-step s key j (discards ids) =
    unfold discard_parked in
    reported_effect s key j (discard_rows ids) (peek s key) (ap (λ r. r.1) (discard_rows-empty ids))
      (unfold peek in refl)
record_of-step s key j (prunes older_than) =
    unfold prune_log in
    reported_effect s key j (pruned older_than) (peek s key) refl (unfold peek in refl)
record_of-step s key j deletes = unfold delete_key record_of in simp get-delete (ground arith)

-- What holds of a record after a call: of the effect of the call at its own key, of the old record
-- at any other.
pub step_rule :
    (P : KeyRecord → Type 0) (s : MemoryStore) (key j : PKey) (c : Call)
    → (key ≡ j → P (effect c (record_of s key)))
    → P (record_of s j)
    → P (record_of (step s (key, c)) j)
step_rule P s key j c own other = rw (record_of-step s key j c) (elim (Bool-cases (key == j)) [
  | inl t ↦ rw t (own ((pkey_eq.same_iff key j).0 t))
  | inr t ↦ rw t other
])

-- A write with a lease that is not in force throws, and nothing that is kept changes.
pub write_refused :
    (t : MemoryStore) (key : PKey) (old : Lease) (w : Write)
    → holds (record_of t key) old ≡ false
    → ((write t key old w).0 ≡ err (lost key old))
      × ((j : PKey) → record_of (write t key old w).1 j ≡ record_of t j)
write_refused t key old w h = (
  ground (arith, write-record_of t key key old w),
  λ j. ground (arith, write-record_of t key j old w, pkey_eq.same_iff key j, ap (record_of t)),
)

-- A write with the lease in force succeeds, and its effect is on the record of the key.
pub write_granted :
    (s : MemoryStore) (key : PKey) (lease : Lease) (w : Write)
    → holds (record_of s key) lease ≡ true
    → ((write s key lease w).0 ≡ ok tt)
      × (record_of (write s key lease w).1 key ≡ write_effect w (record_of s key))
write_granted s key lease w h =
    ground (arith, write-record_of s key key lease w, pkey_eq.same_iff key key)
