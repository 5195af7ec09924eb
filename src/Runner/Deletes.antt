-- ===== src/Runner/Deletes.antt =====
-- src/core/runner.ts: what a full scan deletes.
use watukuy.Base.{
  true, false, none, String, List, [], ◌∷◌, ◌++◌, ◌≡◌, ◌⊎◌, refl, sym, ◌∙◌, ap, subst, arith, In,
  elem, elem-In, In-elem, inl, inr, Bool-cases, if◌then◌else◌, string_eq, ==-refl,
}
use watukuy.Base.Map
use watukuy.Base.Map.{Map, get-delete_all}
use watukuy.Types.{PKey, pkey_eq, Lane, Lease, CommitBatch, ItemRow, OutboxRow}
use watukuy.Diff.{detect_deletes}
use watukuy.Diff.Deletes.{detect_deletes_lem}
use watukuy.Store.{MemoryStore, record_of, commit_poll}
use watukuy.Store.Rows.{KeyRecord, holds, apply_batch}
use watukuy.Store.Calls.{commits, write}
use watukuy.Store.Fencing.{write-record_of}
use watukuy.Store.Queries.{stream_identities}
use watukuy.Store.Queries.Reads.{stream_identities_lem, flatten}
use watukuy.Runner.Cycle.{Strategy, Api, CycleDeps, Cycle}
use watukuy.Runner.Finish.{missing_in, missing_items, delete_batch}

In-append : (x : String) (xs ys : List String) → In x (xs ++ ys) → In x xs ⊎ In x ys
In-append x [] ys i = inr i
In-append x (z ∷ xs) ys (inl e) = inl (inl e)
In-append x (z ∷ xs) ys (inr i) = elim (In-append x xs ys i) [ inl j ↦ inl (inr j) | inr j ↦ inr j ]

append-In : (x : String) (xs ys : List String) → In x xs ⊎ In x ys → In x (xs ++ ys)
append-In x [] ys (inl i) = absurd i
append-In x [] ys (inr i) = i
append-In x (z ∷ xs) ys (inl (inl e)) = inl e
append-In x (z ∷ xs) ys (inl (inr i)) = inr (append-In x xs ys (inl i))
append-In x (z ∷ xs) ys (inr i) = inr (append-In x xs ys (inr i))

-- What is missing in batches is what they hold and was not seen.
missing_in_lem :
    (batches : List (List String)) (seen : List String) (id : String)
    → (In id (missing_in batches seen) → In id (flatten batches) × (elem id seen ≡ false))
      × (In id (flatten batches) → elem id seen ≡ false → In id (missing_in batches seen))
unfolding missing_in
missing_in_lem [] seen id = (λ i. absurd i, λ i u. i)
missing_in_lem (batch ∷ batches) seen id =
    let (from, to) = missing_in_lem batches seen id in
    let (sorted, found, all) = detect_deletes_lem batch seen in
    (
      λ i. elim (In-append id (detect_deletes batch seen) (missing_in batches seen) i) [
        | inl j ↦ (append-In id batch (flatten batches) (inl (found id j).0), (found id j).1)
        | inr j ↦ (append-In id batch (flatten batches) (inr (from j).0), (from j).1)
      ],
      λ i u.
          append-In id (detect_deletes batch seen) (missing_in batches seen)
            (elim (In-append id batch (flatten batches) i) [
              | inl j ↦ inl (all id j u)
              | inr j ↦ inr (to j u)
            ]),
    )

get-keys : (k : String) (m : Map String ItemRow) → (Map.get k m ≡ none) ⊎ In k (Map.keys m)
unfolding Map.get
get-keys k [] = inl refl
get-keys k ((j, v) ∷ m) = elim (Bool-cases (string_eq.same j k)) [
  | inl t ↦ inr (inl ((string_eq.same_iff j k).0 t))
  | inr f ↦ elim (get-keys k m) [ inl n ↦ inl (rw f n) | inr i ↦ inr (inr i) ]
]

pub committed_record :
    (s : MemoryStore) (key : PKey) (lease : Lease) (batch : CommitBatch)
    → holds (record_of s key) lease ≡ true
    → record_of (commit_poll s key lease batch).1 key ≡ apply_batch batch (record_of s key)
unfolding write
committed_record s key lease batch h =
    (write-record_of s key key lease (commits batch)).1 ∙ rw (==-refl key, h) refl

deleted_items :
    (id : String) (missing : List String) (batch : CommitBatch) (rec : KeyRecord)
    → batch.deletes ≡ missing
    → batch.upserts ≡ []
    → (Map.get id (apply_batch batch rec).items
        ≡ (if elem id missing then none else Map.get id rec.items))
unfolding apply_batch Map.set_all
deleted_items id missing batch rec d u = rw (d, u) (get-delete_all missing id rec.items)

-- What is in the store and not missing was seen.
kept_seen :
    (s : MemoryStore) (key : PKey) (seen : List String) (id : String)
    → let items = (record_of s key).items in
      (if elem id (missing_items s key seen) then none else Map.get id items)
      ≡ (if elem id seen then Map.get id items else none)
unfolding missing_items
kept_seen s key seen id =
    let items = (record_of s key).items in
    let (from, to) = missing_in_lem (stream_identities s key 1000) seen id in
    let (all, sizes) = stream_identities_lem s key 1000 (omega arith) in
    elim (Bool-cases (elem id seen)) [
      | inl t ↦ elim (Bool-cases (elem id (missing_items s key seen))) [
        | inl m ↦ absurd (unseen t (from (elem-In id _ m)).1)
        | inr n ↦ rw (t, n) refl
      ]
      | inr f ↦ elim (get-keys id items) [
        | inl none_there ↦ rw (f, none_there) (ground arith)
        | inr i ↦
            rw (f, In-elem id (missing_items s key seen) (to (subst (In id) (sym all) i) f)) refl
      ]
    ]
  where
    unseen : elem id seen ≡ true → elem id seen ≡ false → ⊥
    unseen t f = cc (t, f)

module _ {W C : Type 0} (api : Api W C) (strategy : Strategy C) (deps : CycleDeps)
    (lane : Lane) where
  -- The commit that ends a full scan leaves exactly the rows of the items that the scan has seen, as
  -- they were, where the lease is in force.
  pub delete_batch_lem :
      (c : Cycle W C) (events : List OutboxRow) (id : String)
      → let key = deps.page.key in
        let missing = missing_items c.store key c.seen in
        holds (record_of c.store key) deps.lease ≡ true
        → Map.get id
            (record_of
              (commit_poll c.store key deps.lease
                (delete_batch api strategy deps lane missing events c)).1
              key).items
          ≡ (if elem id c.seen then Map.get id (record_of c.store key).items else none)
  unfolding missing_items delete_batch
  delete_batch_lem c events id h =
      let key = deps.page.key in
      let missing = missing_items c.store key c.seen in
      let batch = delete_batch api strategy deps lane missing events c in
      ap (λ (r : KeyRecord). Map.get id r.items) (committed_record c.store key deps.lease batch h)
      ∙ deleted_items id batch.deletes batch (record_of c.store key) refl refl
      ∙ kept_seen c.store key c.seen id
