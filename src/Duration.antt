-- ===== src/Duration.antt =====
-- src/core/duration.ts: durations as texts and as milliseconds. A decimal fraction is exact here.
mod RoundTrip
mod Examples
use watukuy.Base.{
  ℕ, zero, ◌+◌, ◌*◌, ◌/◌, ◌%◌, ◌^◌, String, string_eq, Bool, true, false, ◌&&◌, ◌||◌, not, Option,
  none, some, nat_eqb, leb, if◌then◌else◌, ◌==◌,
}
use watukuy.Base.Decimal.{decimal, value, is_digit}
use watukuy.Base.Rounding.{round_div}
use watukuy.Types.{
  Number, nat, neg, nan, infinity, neg_infinity, number_text, Result, ok, err, config,
}
use watukuy.Diff.Canonicalize.{json_string}
use Prim.Native.Char.{Char, code}
use Prim.Native.String.{◌++◌, count}

pub data Duration : Type 0 where
  millis : Number → Duration
  written : String → Duration

-- `\s`
abbrev pub is_space : Char → Bool
is_space c =
    (leb 9 (code c) && leb (code c) 13)
    || nat_eqb (code c) 32
    || nat_eqb (code c) 0xa0
    || nat_eqb (code c) 0x1680
    || (leb 0x2000 (code c) && leb (code c) 0x200a)
    || nat_eqb (code c) 0x2028
    || nat_eqb (code c) 0x2029
    || nat_eqb (code c) 0x202f
    || nat_eqb (code c) 0x205f
    || nat_eqb (code c) 0x3000
    || nat_eqb (code c) 0xfeff

unfoldable pub skip_spaces : String → String
skip_spaces String.[] = String.[]
skip_spaces (String.◌∷◌ c s) =
    let rest = skip_spaces s in if is_space c then rest else String.◌∷◌ c s

-- `\d*`, and what follows.
abbrev pub span_one : Char → String → String × String → String × String
span_one c s r = if is_digit c then (String.◌∷◌ c r.0, r.1) else (String.[], String.◌∷◌ c s)

unfoldable pub span_digits : String → String × String
span_digits String.[] = (String.[], String.[])
span_digits (String.◌∷◌ c s) = let r = span_digits s in span_one c s r

-- `(?:\.\d+)?`: the digits of the fraction and what follows.
abbrev pub fraction : String → String × String
fraction String.[] = (String.[], String.[])
fraction (String.◌∷◌ c s) =
    let r = span_digits s in
    if nat_eqb (code c) b'.' && not (r.0 == "") then r else (String.[], String.◌∷◌ c s)

-- `(ms|s|m|h|d)\s*$`, with UNIT_MS
abbrev pub unit_ms : String → Option ℕ
unit_ms unit =
    if unit == "ms"
    then some 1
    else if unit == "s"
    then some 1_000
    else if unit == "m"
    then some 60_000
    else if unit == "h"
    then some 3_600_000
    else if unit == "d"
    then some 86_400_000
    else none

-- The text up to its trailing spaces.
unfoldable pub trim_end : String → String
trim_end String.[] = String.[]
trim_end (String.◌∷◌ c s) =
    let rest = trim_end s in if is_space c && (rest == "") then String.[] else String.◌∷◌ c rest

-- `Math.round(Number(whole.fraction) * unit)`
abbrev pub amount : String → String → ℕ → ℕ
amount whole part unit = round_div (value 0 (whole ++ part) * unit) (10 ^ count part)

unfoldable pub matched : String → String × String → Option ℕ
unfolding skip_spaces trim_end
matched whole part = if whole == "" then none else elim (unit_ms (trim_end (skip_spaces part.1))) [
  | none ↦ none
  | some unit ↦ some (amount whole part.0 unit)
]

unfoldable pub match_duration : String → Option ℕ
unfolding skip_spaces span_digits matched
match_duration s = let whole = span_digits (skip_spaces s) in matched whole.0 (fraction whole.1)

unfoldable pub parse_duration : Duration → String → Result ℕ
unfolding match_duration
parse_duration (millis (nat n)) label = ok n
parse_duration (millis (neg zero)) label = ok 0
parse_duration (millis n) label = err (
    config
      (label ++ (" must be a non-negative finite number of milliseconds, got " ++ number_text n)))
parse_duration (written s) label = elim (match_duration s) [
  | some ms ↦ ok ms
  | none ↦ err (
      config
        (label ++ (" must look like '250ms', '5s', '2m', '6h' or '1d', got " ++ json_string s)))
]

unfoldable pub format_duration : ℕ → String
format_duration ms =
    if nat_eqb (ms % 86_400_000) 0 && not (nat_eqb ms 0)
    then decimal (ms / 86_400_000) ++ "d"
    else if nat_eqb (ms % 3_600_000) 0 && not (nat_eqb ms 0)
    then decimal (ms / 3_600_000) ++ "h"
    else if nat_eqb (ms % 60_000) 0 && not (nat_eqb ms 0)
    then decimal (ms / 60_000) ++ "m"
    else if nat_eqb (ms % 1_000) 0
    then decimal (ms / 1_000) ++ "s"
    else decimal ms ++ "ms"
