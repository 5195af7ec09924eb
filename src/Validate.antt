-- ===== src/Validate.antt =====
-- src/validate/validate.ts: a page of items against a Standard Schema, which is a parameter: the
-- parsed value, or the issues. A promise of a result is awaited, which is no step here.
use watukuy.Base.{Option, none, some, String, List, [], ◌∷◌, map}
use watukuy.Types.{Value, Result, ok, err, validation}
use Prim.Native.String.{◌++◌}

-- A segment of a path is a property key, or an object that holds one.
pub data Segment : Type 0 where
  bare : Value → Segment
  keyed : Value → Segment

pub record Issue : Type 0 where
  pub message : String
  pub path : Option (List Segment)

pub record ValidationIssue : Type 0 where
  pub message : String
  pub path : Option (List Value)

pub data Parsed : Type 0 where
  parsed : Value → Parsed
  failed : List Issue → Parsed

abbrev pub Schema : Type 0
Schema = Value → Parsed

pub record InvalidItem : Type 0 where
  pub item : Value
  pub issues : List ValidationIssue

pub record Validated : Type 0 where
  pub valid : List Value
  pub invalid : List InvalidItem

unfoldable pub segment_key : Segment → Value
segment_key (bare key) = key
segment_key (keyed key) = key

abbrev path_of : Option (List Segment) → Option (List Value)
path_of none = none
path_of (some segments) = some (map segment_key segments)

unfoldable pub normalize_issues : List Issue → List ValidationIssue
unfolding segment_key
normalize_issues = map (λ (i : Issue). record { message = i.message; path = path_of i.path })

unfoldable pub validate_one : Value → Parsed → Validated → Validated
unfolding normalize_issues
validate_one item (parsed value) rest = record rest { valid = value ∷ rest.valid }
validate_one item (failed issues) rest = record rest {
  invalid = record { item = item; issues = normalize_issues issues } ∷ rest.invalid;
}

unfoldable pub validate_all : Schema → List Value → Validated
unfolding validate_one
validate_all schema [] = record { valid = []; invalid = [] }
validate_all schema (item ∷ items) = validate_one item (schema item) (validate_all schema items)

unfoldable pub validate_items : Option Schema → List Value → Validated
unfolding validate_all
validate_items none items = record { valid = items; invalid = [] }
validate_items (some schema) items = validate_all schema items

-- `issues.map((i) => i.message).join('; ')`
unfoldable pub join_messages : List ValidationIssue → String
join_messages [] = ""
join_messages (i ∷ []) = i.message
join_messages (i ∷ j ∷ issues) = i.message ++ ("; " ++ join_messages (j ∷ issues))

-- The message of a `ValidationError` is its issues, joined.
unfoldable pub parse_with : Schema → Value → Result Value
unfolding normalize_issues join_messages
parse_with schema value = elim (schema value) [
  | parsed result ↦ ok result
  | failed issues ↦ err (validation (join_messages (normalize_issues issues)))
]
