-- ===== src/Cursor/Timestamp.antt =====
-- src/cursor/timestamp.ts: the watermark of `updated_since` APIs. `lag` and `overlap` are durations
-- in milliseconds already, `none` where they are not set; times are whole milliseconds. What the
-- language's `Date` does with texts that are not digits is a parameter.
use watukuy.Base.{
  ℕ, ◌+◌, ◌-◌, ◌*◌, ◌/◌, String, Bool, true, false, not, ◌&&◌, Option, none, some, List, [], ◌∷◌,
  nat_eqb, ltb, leb, string_eq, is_some, or_else, if◌then◌else◌, length,
}
use watukuy.Base.Decimal.{value}
use watukuy.Base.Text.{str_leb, codes}
use watukuy.Types.{
  Value, string, number, Number, nat, neg, number_text, Result, ok, err, config, ◌>>=◌,
}
use watukuy.Diff.Canonicalize.{json_string}
use watukuy.Cursor.Path.{get_path}
use Prim.Native.Nat.{compare, Ordering}
use Prim.Native.String.{◌++◌}

-- `parse` gives `none` where the function throws or its result is not a finite number.
pub record TimestampCursorConfig : Type 0 where
  pub field : String
  pub tie_break : Option String
  pub initial : Option String
  pub lag : Option ℕ
  pub overlap : Option ℕ
  pub parse : Option (String → Option ℕ)
  pub format : Option (Number → Option String → String)

pub record TimestampCursor : Type 0 where
  pub value : Option String
  pub tie_break : Option String

pub record AdvanceInput : Type 0 where
  pub items : List Value
  pub page_cursor : Option String
  pub has_more : Option Bool
  pub now : ℕ

pub record AdvanceResult (Cur : Type 0) : Type 0 where
  pub cursor : Cur
  pub done : Bool
  pub items : List Value

-- `/^\d{n}$/`
abbrev pub digits : ℕ → String → Bool
digits n s = nat_eqb (length (codes s)) n && all s
  where
    all : String → Bool
    all String.[] = true
    all (String.◌∷◌ c r) =
        leb b'0' (Prim.Native.Char.code c) && leb (Prim.Native.Char.code c) b'9' && all r

-- `input.hasMore === true`
abbrev pub is_more : Option Bool → Bool
is_more (some b) = b
is_more none = false

abbrev pub field_string : Value → Option String
field_string (string s) = some s
field_string (number (nat n)) = some (number_text (nat n))
field_string (number (neg n)) = some (number_text (neg n))
field_string _ = none

abbrev pub tie_of : Value → String → Option String
tie_of item field = elim (get_path item field) [
  | string s ↦ some s
  | number n ↦ some (number_text n)
  | _ ↦ none
]

unfoldable pub max_string : Option String → Option String → Option String
max_string none b = b
max_string (some a) none = some a
max_string (some a) (some b) = if str_leb b a then some a else some b

-- `epochMs / 1000`, rounded down.
abbrev pub seconds : Number → Number
seconds (nat n) = nat (n / 1000)
seconds (neg n) = neg ((n + 999) / 1000)
seconds n = n

-- `a - b`
abbrev pub minus : ℕ → ℕ → Number
minus a b = if leb b a then nat (a - b) else neg (b - a)

-- The largest time so far, with the text that it was read from.
pub record Mark : Type 0 where
  pub ms : ℕ
  pub raw : String
  pub tie : Option String

module _ (date_parse : String → Option ℕ) (iso : Number → String)
    (cfg : TimestampCursorConfig) where
  unfoldable pub default_parse : String → Option ℕ
  default_parse raw =
      if digits 10 raw
      then some (value 0 raw * 1000)
      else if digits 13 raw
      then some (value 0 raw)
      else date_parse raw

  unfoldable pub try_parse_timestamp : String → Option ℕ
  unfolding default_parse
  try_parse_timestamp raw = elim cfg.parse [ none ↦ default_parse raw | some parse ↦ parse raw ]

  unfoldable pub parse_timestamp : String → Result ℕ
  parse_timestamp raw = elim (try_parse_timestamp raw) [
    | some ms ↦ ok ms
    | none ↦ err (
        config (
          "timestamp cursor: cannot parse "
          ++ (json_string raw
              ++ (" (field '"
                  ++ (cfg.field ++ "') to epoch milliseconds; set cursor.parse for this format")))))
  ]

  -- Negative, zero or positive in the source.
  unfoldable pub compare_timestamps : String → String → Result Ordering
  unfolding parse_timestamp
  compare_timestamps a b = parse_timestamp a >>= λ x. parse_timestamp b >>= λ y. ok (compare x y)

  unfoldable pub format_timestamp : Number → Option String → String
  format_timestamp epoch_ms sample = elim cfg.format [
    | some format ↦ format epoch_ms sample
    | none ↦ elim sample [
      | none ↦ iso epoch_ms
      | some s ↦
          if digits 10 s
          then number_text (seconds epoch_ms)
          else if digits 13 s
          then number_text epoch_ms
          else iso epoch_ms
    ]
  ]

  -- The text and the time of an item's field.
  unfoldable pub stamp : Value → Option (String × ℕ)
  stamp item = elim (field_string (get_path item cfg.field)) [
    | none ↦ none
    | some raw ↦ elim (try_parse_timestamp raw) [ none ↦ none | some ms ↦ some (raw, ms) ]
  ]

  abbrev pub item_tie : Value → Option String
  item_tie item = elim cfg.tie_break [ none ↦ none | some field ↦ tie_of item field ]

  unfoldable pub raise : Value → String → ℕ → Option Mark → Mark
  raise item raw ms none = record { ms = ms; raw = raw; tie = item_tie item }
  raise item raw ms (some m) =
      if ltb m.ms ms
      then record { ms = ms; raw = raw; tie = item_tie item }
      else if nat_eqb ms m.ms && is_some cfg.tie_break
      then record m { tie = max_string m.tie (item_tie item) }
      else m

  -- `ms > now - lag`
  abbrev pub is_fresh : ℕ → ℕ → Bool
  is_fresh now ms = ltb now (ms + or_else cfg.lag 0)

  -- One round of the loop over the items of a page, and the loop: the items that are kept, and the
  -- mark that they leave.
  unfoldable pub scan_one :
      ℕ
      → Value
      → Option (String × ℕ)
      → (Option Mark → List Value × Option Mark)
      → Option Mark
      → List Value × Option Mark
  unfolding raise
  scan_one now item none more mark = let r = more mark in (item ∷ r.0, r.1)
  scan_one now item (some s) more mark =
      if is_fresh now s.1
      then more mark
      else (let r = more (some (raise item s.0 s.1 mark)) in (item ∷ r.0, r.1))

  unfoldable pub scan : ℕ → List Value → Option Mark → List Value × Option Mark
  unfolding stamp scan_one
  scan now [] mark = ([], mark)
  scan now (item ∷ items) mark = scan_one now item (stamp item) (scan now items) mark

  -- The cursor after a page that left a mark; `current` is the time of the cursor.
  unfoldable pub move : TimestampCursor → Option ℕ → Mark → TimestampCursor
  unfolding max_string
  move cursor none mark = record { value = some mark.raw; tie_break = mark.tie }
  move cursor (some current) mark =
      if ltb current mark.ms
      then record { value = some mark.raw; tie_break = mark.tie }
      else if nat_eqb mark.ms current && is_some cfg.tie_break
      then record { value = cursor.value; tie_break = max_string cursor.tie_break mark.tie }
      else cursor

  unfoldable pub time_of : TimestampCursor → Result (Option ℕ)
  unfolding parse_timestamp
  time_of cursor = elim cursor.value [
    | none ↦ ok none
    | some raw ↦ parse_timestamp raw >>= λ ms. ok (some ms)
  ]

  unfoldable pub finish :
      TimestampCursor → Bool → List Value → Option Mark → Result (AdvanceResult TimestampCursor)
  unfolding move time_of
  finish cursor done items none = ok (record { cursor = cursor; done = done; items = items })
  finish cursor done items (some mark) = time_of cursor >>= λ current.
      ok (record { cursor = move cursor current mark; done = done; items = items })

  unfoldable pub advance : TimestampCursor → AdvanceInput → Result (AdvanceResult TimestampCursor)
  unfolding scan finish
  advance cursor input =
      let done = not (is_more input.has_more) in
      elim input.page_cursor [
        | some given ↦ ok (record {
          cursor = record { value = some given; tie_break = none };
          done = done;
          items = input.items;
        })
        | none ↦
            let r = scan input.now input.items none in
            let items = if nat_eqb (length r.0) (length input.items) then input.items else r.0 in
            finish cursor done items r.1
      ]

  unfoldable pub initial : TimestampCursor
  initial = record { value = cfg.initial; tie_break = none }

  unfoldable pub for_fetch : TimestampCursor → Result TimestampCursor
  unfolding parse_timestamp format_timestamp
  for_fetch cursor =
      let overlap = or_else cfg.overlap 0 in
      if nat_eqb overlap 0 then ok cursor else elim cursor.value [
        | none ↦ ok cursor
        | some raw ↦ parse_timestamp raw >>= λ ms. ok (record {
          value = some (format_timestamp (minus ms overlap) (some raw));
          tie_break = none;
        })
      ]

  unfoldable pub lag_ms : TimestampCursor → ℕ → Option Number
  unfolding try_parse_timestamp
  lag_ms cursor now = elim cursor.value [
    | none ↦ none
    | some raw ↦ elim (try_parse_timestamp raw) [ none ↦ none | some ms ↦ some (minus now ms) ]
  ]

  unfoldable pub reached : TimestampCursor → TimestampCursor → Result Bool
  unfolding parse_timestamp
  reached cursor target = elim target.value [
    | none ↦ ok true
    | some t ↦ elim cursor.value [
      | none ↦ ok false
      | some c ↦ parse_timestamp c >>= λ x. parse_timestamp t >>= λ y. ok (leb y x)
    ]
  ]

  unfoldable pub from_raw : Option String → TimestampCursor
  from_raw raw = record { value = raw; tie_break = none }
