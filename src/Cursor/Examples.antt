-- ===== src/Cursor/Examples.antt =====
-- The theorems on src/cursor/ at concrete inputs.
use watukuy.Base.{ℕ, String, Option, none, some, [], ◌∷◌, ◌≡◌, refl, true, false, string_eq}
use watukuy.Base.Text.{str_leb}
use watukuy.Types.{Value, string, object, member, no_members, Number, ok}
use watukuy.Cursor.Path.{get_path}
use watukuy.Cursor.Timestamp.{
  TimestampCursorConfig, TimestampCursor, AdvanceInput, AdvanceResult, advance, time_of,
  try_parse_timestamp, stamp, parse_timestamp,
}
use watukuy.Cursor.Watermark.{advance_lem, Advanced}

abbrev no_date : String → Option ℕ
no_date s = none

abbrev iso : Number → String
iso n = "1970-01-01T00:00:00.000Z"

abbrev config : TimestampCursorConfig
config = record {
  field = "meta.at";
  tie_break = some "id";
  initial = none;
  lag = some 5000;
  overlap = none;
  parse = none;
  format = none;
}

abbrev order : String → String → Value
order id at = object (
    member "id" (string id)
      (member "meta" (object (member "at" (string at) no_members)) no_members))

abbrev input : AdvanceInput
input = record {
  items =
      order "o1" "1700000001"
      ∷ order "o2" "1700000003"
      ∷ order "o4" "soon"
      ∷ order "o3" "1700000003"
      ∷ order "o5" "1700000009"
      ∷ [];
  page_cursor = none;
  has_more = some true;
  now = 1_700_000_010_000;
}

abbrev cursor : TimestampCursor
cursor = record { value = some "1700000000"; tie_break = none }

advance_example :
    (r : AdvanceResult TimestampCursor) × (new : Option ℕ) × (advance no_date iso config cursor
        input
      ≡ ok r)
    × Advanced no_date iso config cursor input (some 1_700_000_000_000) r new
unfolding time_of parse_timestamp try_parse_timestamp
advance_example = advance_lem no_date iso config cursor input (some 1_700_000_000_000) refl refl

-- The fifth order is newer than the lag allows; the third has no time.
advanced :
    advance no_date iso config cursor input
    ≡ ok (record {
      cursor = record { value = some "1700000003"; tie_break = some "o3" };
      done = false;
      items =
          order "o1" "1700000001"
          ∷ order "o2" "1700000003"
          ∷ order "o4" "soon"
          ∷ order "o3" "1700000003"
          ∷ [];
    })
unfolding advance time_of try_parse_timestamp get_path stamp str_leb
advanced = refl
