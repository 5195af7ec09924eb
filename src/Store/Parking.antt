-- ===== src/Store/Parking.antt =====
-- Parked rows: retrying and discarding them.
use watukuy.Base.{
  ◌⊎◌, ap, Option-cases, ℕ, String, false, Option, none, some, ◌≡◌, refl, sym, ◌∙◌, subst, List, [],
  ◌∷◌, arith, if◌then◌else◌, ◌==◌, inl, inr, Bool-cases, string_eq, In, ==-true, ==-refl,
}
use watukuy.Base.Map
use watukuy.Base.Map.{get-set, Map, get-set_self, get-delete}
use watukuy.Types.{PKey, pkey_eq, ParkedRow, WatukuyEvent, poison}
use watukuy.Store.{pending, OutboxRow, MemoryStore, record_of, retry_parked}
use watukuy.Store.Rows.{KeyRecord, retry_row, retry_rows, retryable, requeued}
use watukuy.Store.Calls.{retries, step}
use watukuy.Store.Fencing.{record_of-step}

retry_row-parked :
    (id k : String) (rec : KeyRecord) (o : Option (WatukuyEvent × ℕ))
    → retryable (Map.get id rec.parked) ≡ o
    → Map.get k (retry_row id rec).1.parked ≡ elim o [
      | none ↦ Map.get k rec.parked
      | some p ↦ (if id == k then none else Map.get k rec.parked)
    ]
unfolding retry_row
retry_row-parked id k rec none e = rw (e, retry_row)
retry_row-parked id k rec (some (event, at)) e = rw (e, retry_row) (get-delete id k rec.parked)

-- A parked row that is gone stays gone.
retry_rows-gone :
    (ids : List String) (k : String) (rec : KeyRecord)
    → Map.get k rec.parked ≡ none
    → Map.get k (retry_rows ids rec).1.parked ≡ none
unfolding retry_rows
retry_rows-gone [] k rec h = h
retry_rows-gone (id ∷ ids) k rec h =
    retry_rows-gone ids k (retry_row id rec).1
      (ground (arith, retry_row-parked id k rec (retryable (Map.get id rec.parked)) refl))

retry_row_self :
    (id : String) (rec : KeyRecord) (event : WatukuyEvent) (at : ℕ)
    → retryable (Map.get id rec.parked) ≡ some (event, at)
    → (Map.get event.id (retry_row id rec).1.outbox ≡ some (requeued event at))
      × (Map.get id (retry_row id rec).1.parked ≡ none)
unfolding retry_row
retry_row_self id rec event at e = (
  rw (e, retry_row) (get-set_self event.id (requeued event at) rec.outbox),
  rw (e, retry_row) (get-delete id id rec.parked ∙ rw (==-refl id)),
)

-- Retrying another row leaves a parked row where it is.
retry_row_ne :
    (id' id : String) (rec : KeyRecord)
    → id' == id ≡ false
    → Map.get id (retry_row id' rec).1.parked ≡ Map.get id rec.parked
retry_row_ne id' id rec h =
    ground (arith, retry_row-parked id' id rec (retryable (Map.get id' rec.parked)) refl)

module _ (ids₀ : List String) (rec₀ : KeyRecord) where
  -- A listed poison row has the event.
  abbrev Origin : String → WatukuyEvent → ℕ → Type 0
  Origin k event at =
      (id : String) × In id ids₀
      × (retryable (Map.get id rec₀.parked) ≡ some (event, at))
      × (event.id ≡ k)

  abbrev Back : String → KeyRecord → Type 0
  Back k rec =
      (event : WatukuyEvent) × (at : ℕ) × Origin k event at
      × (Map.get k rec.outbox ≡ some (requeued event at))

  -- Parked rows are only taken out.
  abbrev Rest : KeyRecord → Type 0
  Rest rec =
      (id : String)
      → (Map.get id rec.parked ≡ none) ⊎ (Map.get id rec.parked ≡ Map.get id rec₀.parked)

  retry_row-Rest : (id : String) (rec : KeyRecord) → Rest rec → Rest (retry_row id rec).1
  retry_row-Rest id rec h k =
      by_row (retryable (Map.get id rec.parked)) (retry_row-parked id k rec _ refl) (h k)
    where
      by_row :
          (o : Option (WatukuyEvent × ℕ))
          → Map.get k (retry_row id rec).1.parked ≡ (elim o [
            | none ↦ Map.get k rec.parked
            | some p ↦ (if id == k then none else Map.get k rec.parked)
          ])
          → (Map.get k rec.parked ≡ none) ⊎ (Map.get k rec.parked ≡ Map.get k rec₀.parked)
          → (Map.get k (retry_row id rec).1.parked ≡ none)
            ⊎ (Map.get k (retry_row id rec).1.parked ≡ Map.get k rec₀.parked)
      by_row none e (inl n) = inl (e ∙ n)
      by_row none e (inr q) = inr (e ∙ q)
      by_row (some p) e (inl n) = inl (ground (arith, e, n))
      by_row (some p) e (inr q) = elim (Bool-cases (id == k)) [
        | inl t ↦ inl (e ∙ rw t refl)
        | inr f ↦ inr (e ∙ rw f q)
      ]

  -- What a listed row has in a later record it had at first.
  retryable_first :
      (id : String) (rec : KeyRecord) (event : WatukuyEvent) (at : ℕ)
      → Rest rec
      → retryable (Map.get id rec.parked) ≡ some (event, at)
      → retryable (Map.get id rec₀.parked) ≡ some (event, at)
  retryable_first id rec event at h e = elim (h id) [
    | inl n ↦ absurd (cc (sym (ap retryable n) ∙ e))
    | inr q ↦ sym (ap retryable q) ∙ e
  ]

  retry_row-Back :
      (id k : String) (rec : KeyRecord)
      → In id ids₀
      → Rest rec
      → Back k rec
      → Back k (retry_row id rec).1
  unfolding retry_row
  retry_row-Back id k rec i h (event, at, origin, e) =
      elim (Option-cases (retryable (Map.get id rec.parked))) [
        | inl n ↦ (event, at, origin, rw (n, retry_row) e)
        | inr ((other, at'), q) ↦ elim (Bool-cases (other.id == k)) [
          | inl t ↦ (
            other,
            at',
            (id, i, retryable_first id rec other at' h q, ==-true other.id k t),
            rw (q, retry_row) (get-set other.id k (requeued other at') rec.outbox ∙ rw t refl),
          )
          | inr f ↦ (
            event,
            at,
            origin,
            rw (q, retry_row) (get-set other.id k (requeued other at') rec.outbox ∙ rw f e),
          )
        ]
      ]

  retry_rows-Back :
      (ids : List String) (k : String) (rec : KeyRecord)
      → ((id : String) → In id ids → In id ids₀)
      → Rest rec
      → Back k rec
      → Back k (retry_rows ids rec).1
  unfolding retry_rows
  retry_rows-Back [] k rec sub h b = b
  retry_rows-Back (id ∷ ids) k rec sub h b =
      retry_rows-Back ids k (retry_row id rec).1 (λ j i. sub j (inr i)) (retry_row-Rest id rec h)
        (retry_row-Back id k rec (sub id (inl refl)) h b)

  retry_first :
      (ids : List String) (id : String) (rec : KeyRecord) (event : WatukuyEvent) (at : ℕ)
      → ((j : String) → In j ids → In j ids₀)
      → In id ids₀
      → Rest rec
      → retryable (Map.get id rec.parked) ≡ some (event, at)
      → Back event.id (retry_rows ids (retry_row id rec).1).1
        × (Map.get id (retry_rows ids (retry_row id rec).1).1.parked ≡ none)
  retry_first ids id rec event at sub i h e =
      let r = retry_row_self id rec event at e in
      (
        retry_rows-Back ids event.id (retry_row id rec).1 sub (retry_row-Rest id rec h)
            (event, at, (id, i, retryable_first id rec event at h e, refl), r.0),
        retry_rows-gone ids id (retry_row id rec).1 r.1,
      )

  retry_rows_lem :
      (ids : List String) (id : String) (rec : KeyRecord) (event : WatukuyEvent) (at : ℕ)
      → ((j : String) → In j ids → In j ids₀)
      → In id ids
      → Rest rec
      → retryable (Map.get id rec.parked) ≡ some (event, at)
      → Back event.id (retry_rows ids rec).1 × (Map.get id (retry_rows ids rec).1.parked ≡ none)
  unfolding retry_rows
  retry_rows_lem [] id rec event at sub i h e = absurd i
  retry_rows_lem (j ∷ ids) id rec event at sub i h e = elim (Bool-cases (j == id)) [
    | inl t ↦
        subst
          (λ (k : String).
            Back event.id (retry_rows ids (retry_row k rec).1).1
            × (Map.get id (retry_rows ids (retry_row k rec).1).1.parked ≡ none))
          (sym (==-true j id t))
          (retry_first ids id rec event at (λ k m. sub k (inr m)) (sub id i) h e)
    | inr f ↦
        retry_rows_lem ids id (retry_row j rec).1 event at (λ k m. sub k (inr m)) (later i f)
          (retry_row-Rest j rec h) (rw (retry_row_ne j id rec f) e)
  ]
    where
      later : In id (j ∷ ids) → (j == id) ≡ false → In id ids
      later (inl p) f = absurd (ground (arith, ==-refl id, subst (λ x. (x == id) ≡ false) p f))
      later (inr m) f = m

-- A row that waits for its first attempt.
abbrev pub IsFirst : String → OutboxRow → Type 0
IsFirst id row =
    (row.event_id ≡ id)
    × (row.event.id ≡ id)
    × (row.sequence ≡ row.event.sequence)
    × (row.status ≡ pending)
    × (row.attempts ≡ 0)
    × (row.next_attempt_at ≡ none)
    × (row.last_error ≡ none)

-- After `retryParked`, every listed poison row is no longer parked, and the outbox has, under the id of
-- its event, a pending row that has not been attempted and waits for nothing; its event is that of a
-- listed poison row with this event id, so that of the row itself where no other has the id.
pub retry_parked_lem :
    (s : MemoryStore) (key : PKey) (ids : List String) (id : String) (row : ParkedRow)
    (event : WatukuyEvent)
    → In id ids
    → Map.get id (record_of s key).parked ≡ some row
    → row.kind ≡ poison
    → row.event ≡ some event
    → let after = record_of (retry_parked s key ids).1 key in
      (Map.get id after.parked ≡ none)
      × ((new : OutboxRow) × (other : String) × (Map.get event.id after.outbox ≡ some new)
          × IsFirst event.id new
          × In other ids
          × (retryable (Map.get other (record_of s key).parked) ≡ some (new.event, new.created_at)))
unfolding step
retry_parked_lem s key ids id row event i e k h =
    let (back, gone) =
      retry_rows_lem ids (record_of s key) ids id (record_of s key) event row.parked_at (λ j m. m) i
        (λ j. inr refl) (rw (e, k, h) refl) in
    let (origin, at, (other, m, q, same), found) = back in
    rw (record_of-step s key key (retries ids), ==-refl key)
      (gone, (requeued origin at, other, found, (same, same, refl, refl, refl, refl, refl), m, q))
