-- ===== src/Store/Queries/Reads.antt =====
-- The other reads: versions by identity, identities in batches.
use watukuy.Base.{
  ℕ, zero, suc, ◌≤◌, ◌<◌, String, true, none, some, ◌≡◌, refl, ap, ◌∙◌, List, [], ◌∷◌, ◌++◌, arith,
  All, take, drop, take-drop, length-drop, length-take-le, length, elem, ◌==◌, string_eq,
  if◌then◌else◌, Option-cases, inl, inr, ==-true,
}
use watukuy.Base.Map
use watukuy.Base.Map.{Map, get-set}
use watukuy.Types.{PKey, ItemRow}
use watukuy.Store.{MemoryStore, record_of}
use watukuy.Store.Queries.{load_rows, load_versions, slices, stream_identities}

load_rows_lem :
    (items : Map String ItemRow) (ids : List String) (out : Map String ItemRow) (k : String)
    → Map.get k (load_rows items ids out) ≡ (
        if elem k ids
        then elim (Map.get k items) [ none ↦ Map.get k out | some r ↦ some r ]
        else Map.get k out)
unfolding load_rows elem
load_rows_lem items [] out k = refl
load_rows_lem items (id ∷ ids) out k = elim (Option-cases (Map.get id items)) [
  | inl n ↦ rw (n, load_rows_lem items ids out k) (ground (arith, same_row, n))
  | inr (row, e) ↦
      rw (e, load_rows_lem items ids (Map.set id row out) k)
        (ground (arith, same_row, e, get-set id k row out))
]
  where
    same_row : id == k ≡ true → Map.get id items ≡ Map.get k items
    same_row t = ap (λ j. Map.get j items) (==-true id k t)

-- `loadVersions` gives exactly the stored rows of the asked identities.
pub load_versions_lem :
    (s : MemoryStore) (key : PKey) (ids : List String) (k : String)
    → Map.get k (load_versions s key ids)
      ≡ (if elem k ids then Map.get k (record_of s key).items else none)
unfolding load_versions Map.get
load_versions_lem s key ids k = load_rows_lem (record_of s key).items ids [] k ∙ ground arith

abbrev pub flatten : List (List String) → List String
flatten [] = []
flatten (xs ∷ xss) = xs ++ flatten xss

slices_lem :
    (fuel size : ℕ) (xs : List String)
    → 0 < size
    → length xs ≤ fuel
    → (flatten (slices fuel size xs) ≡ xs) × All (λ ys. length ys ≤ size) (slices fuel size xs)
unfolding slices
slices_lem zero size [] p h = (refl, tt)
slices_lem zero size (x ∷ xs) p h = absurd (omega arith)
slices_lem (suc fuel) size [] p h = (refl, tt)
slices_lem (suc fuel) size (x ∷ xs) p h =
    let rest =
      slices_lem fuel size (drop size (x ∷ xs)) p (omega (arith, length-drop {0} size (x ∷ xs))) in
    (
      ap (λ ys. take size (x ∷ xs) ++ ys) rest.0 ∙ take-drop size (x ∷ xs),
      (length-take-le size (x ∷ xs), rest.1),
    )

-- The batches of `streamIdentities` are the stored identities in order, none left out, each batch
-- no longer than asked.
pub stream_identities_lem :
    (s : MemoryStore) (key : PKey) (size : ℕ)
    → 0 < size
    → (flatten (stream_identities s key size) ≡ Map.keys (record_of s key).items)
      × All (λ ys. length ys ≤ size) (stream_identities s key size)
unfolding stream_identities
stream_identities_lem s key size p =
    slices_lem (length (Map.keys (record_of s key).items)) size (Map.keys (record_of s key).items) p
      (omega arith)
