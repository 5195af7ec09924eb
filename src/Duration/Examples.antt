-- ===== src/Duration/Examples.antt =====
-- The theorem on src/core/duration.ts at a concrete input, and runs of the parser.
use watukuy.Base.{none, some, ◌≡◌, refl, string_eq}
use watukuy.Types.{ok}
use watukuy.Duration.{written, match_duration, parse_duration, format_duration}
use watukuy.Duration.RoundTrip.{parse_duration-format_duration}
use watukuy.Base.Rounding.{round_div}

parse_duration-format_duration_example :
    parse_duration (written (format_duration 5_400_000)) "lag" ≡ ok 5_400_000
parse_duration-format_duration_example = parse_duration-format_duration 5_400_000 "lag"

ninety_minutes : match_duration " 90 m " ≡ some 5_400_000
unfolding match_duration round_div
ninety_minutes = refl

with_fraction : match_duration "1.5s" ≡ some 1500
unfolding match_duration round_div
with_fraction = refl

no_unit : match_duration "15" ≡ none
unfolding match_duration
no_unit = refl

no_digits_after_point : match_duration "1.s" ≡ none
unfolding match_duration
no_digits_after_point = refl
