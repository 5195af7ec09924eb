-- ===== src/Diff.antt =====
-- src/diff/diff.ts: which items of a page are new, changed, unchanged or gone.
pub mod Canonicalize
pub mod EventId
mod Reordered
pub mod Again
mod Latest
mod Announced
pub mod Repeated
pub mod Deletes
mod Examples
use watukuy.Base.{
  ℕ, zero, String, Bool, true, false, not, ◌&&◌, ◌||◌, Option, none, some, List, [], ◌∷◌, nat_eqb,
  ◌==◌, string_eq, is_some, if◌then◌else◌, elem, filter,
}
use watukuy.Base.Map
use watukuy.Base.Map.{Map}
use watukuy.Base.Sort.{sort}
use watukuy.Base.Text.{str_leb}
use watukuy.Types.{
  Value, undefined, null, boolean, number, string, array, object, Number, nat, neg, nan, infinity,
  neg_infinity, ItemRow, ResolvedPoller, number_text, Retain, hash_only, payload, OnSchemaChange,
  rebaseline, emit, EventType, created, updated, Result, ok, err, type_error, ◌>>=◌,
}
use Canonicalize.{hash_value}
use Prim.Native.String.{◌++◌}

-- `undefined` for a payload that is not stored is `none`.
pub record DiffCandidate : Type 0 where
  pub identity : String
  pub item : Value
  pub version : Option String
  pub hash : String

pub record Change : Type 0 where
  pub type : EventType
  pub identity : String
  pub item : Value
  pub previous : Option Value
  pub version : Option String
  pub hash : String

pub record DiffResult : Type 0 where
  pub changes : List Change
  pub upserts : List ItemRow
  pub unchanged : List String
  pub rebaselined : List String

pub record Prepared : Type 0 where
  pub candidates : List DiffCandidate
  pub unchanged : List String

-- `id === null ? 'null' : typeof id`
unfoldable pub type_of : Value → String
type_of undefined = "undefined"
type_of null = "null"
type_of (boolean _) = "boolean"
type_of (number _) = "number"
type_of (string _) = "string"
type_of (array _) = "object"
type_of (object _) = "object"

unfoldable pub identity_of : ResolvedPoller → Value → Result String
unfolding type_of
identity_of poller item = elim (poller.identity item) [
  | string id ↦ ok id
  | number n ↦ ok (number_text n)
  | id ↦ err (
      type_error
        ("poller '" ++ (poller.name ++ ("': identity() must return a string, got " ++ type_of id))))
]

-- The loop that fills `latest`: a later item takes the place of an earlier one.
unfoldable pub latest : ResolvedPoller → List Value → Map String Value → Result (Map String Value)
unfolding identity_of
latest poller [] m = ok m
latest poller (item ∷ items) m =
    identity_of poller item >>= λ id. latest poller items (Map.set id item m)

abbrev pub version_of : ResolvedPoller → Value → Option String
version_of poller item = elim poller.version [ none ↦ none | some select ↦ some (select item) ]

abbrev pub same_version : Option String → Option String → Bool
same_version none none = true
same_version (some a) (some b) = a == b
same_version _ _ = false

-- The version fast path.
unfoldable pub is_fast : ResolvedPoller → Option String → Option ItemRow → Bool
is_fast poller version none = false
is_fast poller version (some row) =
    is_some version
    && same_version row.version version
    && nat_eqb row.schema_version poller.schema_version

unfoldable pub fingerprint_of : (String → List ℕ) → ResolvedPoller → Value → Result String
fingerprint_of digest poller item =
    hash_value digest (elim poller.fingerprint [ none ↦ item | some select ↦ select item ])

module _ (digest : String → List ℕ) (poller : ResolvedPoller) (existing : Map String ItemRow) where
  unfoldable pub prepare_loop : Map String Value → Result Prepared
  unfolding fingerprint_of is_fast
  prepare_loop [] = ok (record { candidates = []; unchanged = [] })
  prepare_loop ((id, item) ∷ more) =
      let after = prepare_loop more in
      if is_fast poller (version_of poller item) (Map.get id existing)
      then (after >>= λ r. ok (record r { unchanged = id ∷ r.unchanged }))
      else fingerprint_of digest poller item >>= λ hash. after >>= λ r. ok (record r {
        candidates =
            record { identity = id; item = item; version = version_of poller item; hash = hash }
            ∷ r.candidates;
      })

  unfoldable pub prepare_candidates : List Value → Result Prepared
  unfolding prepare_loop latest
  prepare_candidates items = latest poller items [] >>= prepare_loop

unfoldable pub row_for : ResolvedPoller → DiffCandidate → ℕ → ItemRow
row_for poller candidate now = record {
  identity = candidate.identity;
  version = candidate.version;
  hash = candidate.hash;
  schema_version = poller.schema_version;
  seen_at = now;
  payload = elim poller.retain [ hash_only ↦ none | payload ↦ some candidate.item ];
}

abbrev pub change_of : EventType → DiffCandidate → Option Value → Change
change_of type c previous = record {
  type = type;
  identity = c.identity;
  item = c.item;
  previous = previous;
  version = c.version;
  hash = c.hash;
}

module _ (poller : ResolvedPoller) (existing : Map String ItemRow) (now : ℕ) (touch : Bool) where
  -- One round of the loop, put before the rounds that follow.
  unfoldable pub diff_one : DiffCandidate → Option ItemRow → DiffResult → DiffResult
  unfolding row_for
  diff_one c none r = record r {
    changes = change_of created c none ∷ r.changes;
    upserts = row_for poller c now ∷ r.upserts;
  }
  diff_one c (some row) r =
      let drifted = not (nat_eqb row.schema_version poller.schema_version) in
      if drifted && (elim poller.on_schema_change [ rebaseline ↦ true | emit ↦ false ])
      then record r {
        rebaselined = c.identity ∷ r.rebaselined;
        upserts = row_for poller c now ∷ r.upserts;
      }
      else if not (row.hash == c.hash)
      then record r {
        changes =
            change_of updated c (elim poller.retain [ hash_only ↦ none | payload ↦ row.payload ])
            ∷ r.changes;
        upserts = row_for poller c now ∷ r.upserts;
      }
      else if drifted
      then record r {
        rebaselined = c.identity ∷ r.rebaselined;
        upserts = row_for poller c now ∷ r.upserts;
      }
      else if touch || not (same_version row.version c.version)
      then record r {
        unchanged = c.identity ∷ r.unchanged;
        upserts = row_for poller c now ∷ r.upserts;
      }
      else record r { unchanged = c.identity ∷ r.unchanged }

  unfoldable pub diff_candidates : List DiffCandidate → DiffResult
  unfolding diff_one
  diff_candidates [] = record { changes = []; upserts = []; unchanged = []; rebaselined = [] }
  diff_candidates (c ∷ cs) = diff_one c (Map.get c.identity existing) (diff_candidates cs)

unfoldable pub detect_deletes : List String → List String → List String
detect_deletes existing seen = sort str_leb (filter (λ id. not (elem id seen)) existing)
