-- ===== src/Store/Queries.antt =====
-- The reads of src/stores/memory/memory-store.ts. A key with no record reads as the empty record.
pub mod Pending
pub mod Reads
use watukuy.Base.{
  ℕ, zero, suc, ◌+◌, ◌-◌, String, Bool, true, false, ◌&&◌, Option, none, some, List, [], ◌∷◌, map,
  leb, ltb, length, take, drop, filter, string_eq, if◌then◌else◌,
}
use watukuy.Base.Map
use watukuy.Base.Map.{Map}
use watukuy.Base.Sort.{sort}
use watukuy.Types.{
  PKey, ItemRow, OutboxRow, OutboxStatus, pending, delivered, ParkedRow, ParkedKind, poison,
  invalid, Validator, LoggedEvent,
}
use watukuy.Store.{MemoryStore, record_of}
use watukuy.Store.Rows.{KeyRecord}

-- `for (const id of identities) if (rec.items.get(id)) out.set(id, row)`
unfoldable pub load_rows :
    Map String ItemRow → List String → Map String ItemRow → Map String ItemRow
load_rows items [] out = out
load_rows items (id ∷ ids) out =
    load_rows items ids (elim (Map.get id items) [ none ↦ out | some row ↦ Map.set id row out ])

unfoldable pub load_versions : MemoryStore → PKey → List String → Map String ItemRow
unfolding load_rows record_of
load_versions s key identities = load_rows (record_of s key).items identities []

-- Slices of `size`, one after another; the list's length is fuel enough where `size` is positive.
unfoldable pub slices : ℕ → ℕ → List String → List (List String)
slices zero size xs = []
slices (suc fuel) size [] = []
slices (suc fuel) size (x ∷ xs) = take size (x ∷ xs) ∷ slices fuel size (drop size (x ∷ xs))

unfoldable pub stream_identities : MemoryStore → PKey → ℕ → List (List String)
unfolding slices record_of
stream_identities s key size =
    let all = Map.keys (record_of s key).items in slices (length all) size all

unfoldable pub count_items : MemoryStore → PKey → ℕ
unfolding record_of
count_items s key = length (record_of s key).items

abbrev pub status_pending : OutboxStatus → Bool
status_pending pending = true
status_pending delivered = false

abbrev pub is_pending : OutboxRow → Bool
is_pending r = status_pending r.status

abbrev pub by_sequence : OutboxRow → OutboxRow → Bool
by_sequence a b = leb a.sequence b.sequence

unfoldable pub load_pending : MemoryStore → PKey → ℕ → List OutboxRow
unfolding record_of sort
load_pending s key limit =
    take limit (sort by_sequence (filter is_pending (Map.values (record_of s key).outbox)))

unfoldable pub count_pending : MemoryStore → PKey → ℕ
unfolding record_of
count_pending s key = length (filter is_pending (Map.values (record_of s key).outbox))

abbrev same_kind : ParkedKind → ParkedKind → Bool
same_kind poison poison = true
same_kind invalid invalid = true
same_kind _ _ = false

abbrev of_kind : Option ParkedKind → ParkedRow → Bool
of_kind none r = true
of_kind (some k) r = same_kind r.kind k

abbrev pub limited {ℓ} : {A : Type ℓ} → Option ℕ → List A → List A
limited none xs = xs
limited (some n) xs = take n xs

unfoldable pub list_parked : MemoryStore → PKey → Option ParkedKind → Option ℕ → List ParkedRow
unfolding record_of sort
list_parked s key kind limit = limited limit (
    sort (λ (a b : ParkedRow). leb a.parked_at b.parked_at)
      (filter (of_kind kind) (Map.values (record_of s key).parked)))

unfoldable pub count_parked : MemoryStore → PKey → ℕ
unfolding record_of
count_parked s key = length (record_of s key).parked

unfoldable pub held_of : List ParkedRow → List String
held_of [] = []
held_of (r ∷ rows) = let rest = held_of rows in elim r.hold_key [ none ↦ rest | some k ↦ k ∷ rest ]

-- The ordering keys that parked rows hold, a set given by its members.
unfoldable pub held_keys : MemoryStore → PKey → List String
unfolding record_of held_of
held_keys s key = held_of (Map.values (record_of s key).parked)

unfoldable pub get_validator : MemoryStore → PKey → String → Option Validator
unfolding record_of
get_validator s key url_hash = Map.get url_hash (record_of s key).validators

pub record LogRange : Type 0 where
  pub after_sequence : Option ℕ
  pub from_time : Option ℕ
  pub to_time : Option ℕ

abbrev at_bound : (ℕ → Bool) → Option ℕ → Bool
at_bound test none = true
at_bound test (some n) = test n

abbrev pub in_range : LogRange → LoggedEvent → Bool
in_range range e =
    at_bound (λ n. ltb n e.sequence) range.after_sequence
    && (at_bound (λ t. leb t e.created_at) range.from_time
        && at_bound (λ t. leb e.created_at t) range.to_time)

unfoldable pub read_log : MemoryStore → PKey → LogRange → ℕ → List LoggedEvent
unfolding record_of sort
read_log s key range limit = take limit (
    sort (λ (a b : LoggedEvent). leb a.sequence b.sequence)
      (filter (in_range range) (record_of s key).log))
