-- ===== src/Duration/RoundTrip.antt =====
-- src/core/duration.ts: what is formatted is parsed back.
use watukuy.Base.{
  ℕ, ◌*◌, ◌/◌, ◌%◌, String, string_eq, true, false, ◌&&◌, some, ◌≡◌, ◌≢◌, refl, ap, ◌∙◌, inl, inr,
  Bool-cases, nat_eqb, not, arith, ◌==◌,
}
use watukuy.Base.Decimal.{
  decimal, is_digit, all_digits, all_digits-decimal, value-decimal, decimal_non_empty,
}
use watukuy.Base.Rounding.{round_div}
use watukuy.Types.{ok}
use watukuy.Duration.{
  written, skip_spaces, span_one, span_digits, fraction, unit_ms, trim_end, amount, matched,
  match_duration, parse_duration, format_duration,
}
use Prim.Native.Char.{Char}
use Prim.Native.String.{◌++◌}
use text.Mathlib.TextLemmas.{nil-append, cons-append, append-nil}

span_one-digit :
    (c : Char) (s : String) (r : String × String)
    → is_digit c ≡ true
    → span_one c s r ≡ (String.◌∷◌ c r.0, r.1)
span_one-digit c s r h = rw h refl

span_digits-append :
    (s : String) (c : Char) (t : String)
    → all_digits s ≡ true
    → is_digit c ≡ false
    → span_digits (s ++ String.◌∷◌ c t) ≡ (s, String.◌∷◌ c t)
unfolding span_digits
span_digits-append String.[] c t h k = rw (nil-append (String.◌∷◌ c t)) (rw k refl)
span_digits-append (String.◌∷◌ d s) c t h k = rw (cons-append d s (String.◌∷◌ c t)) (
    ap (span_one d (s ++ String.◌∷◌ c t)) (span_digits-append s c t (ground (arith, h)) k)
    ∙ span_one-digit d (s ++ String.◌∷◌ c t) (s, String.◌∷◌ c t) (ground (arith, h)))

skip_spaces-append :
    (s t : String) → all_digits s ≡ true → s ≢ String.[] → skip_spaces (s ++ t) ≡ s ++ t
unfolding skip_spaces
skip_spaces-append String.[] t h n = absurd (n refl)
skip_spaces-append (String.◌∷◌ d s) t h n = rw (cons-append d s t) (ground (arith, h))

not_empty : (n : ℕ) → (decimal n == "") ≡ false
not_empty n = ground (arith, string_eq.same_iff (decimal n) "", decimal_non_empty n)

amount_lem : (n unit : ℕ) → amount (decimal n) "" unit ≡ n * unit
unfolding round_div
amount_lem n unit = rw (append-nil (decimal n)) (rw (value-decimal n) (omega arith))

matched_lem :
    (n unit : ℕ) (rest : String)
    → unit_ms (trim_end (skip_spaces rest)) ≡ some unit
    → matched (decimal n) ("", rest) ≡ some (n * unit)
unfolding matched
matched_lem n unit rest u = rw (not_empty n) (rw u (ap some (amount_lem n unit)))

-- A number and a unit, which starts with neither a digit nor a point.
match_duration_lem :
    (n unit : ℕ) (c : Char) (t : String)
    → is_digit c ≡ false
    → ◌≡◌ {A = String × String} (fraction (String.◌∷◌ c t)) ("", String.◌∷◌ c t)
    → unit_ms (trim_end (skip_spaces (String.◌∷◌ c t))) ≡ some unit
    → match_duration (decimal n ++ String.◌∷◌ c t) ≡ some (n * unit)
unfolding match_duration
match_duration_lem n unit c t d f u =
    ap (λ x. let whole = span_digits x in matched whole.0 (fraction whole.1))
      (skip_spaces-append (decimal n) (String.◌∷◌ c t) (all_digits-decimal n) (decimal_non_empty n))
    ∙ ap (λ (whole : String × String). matched whole.0 (fraction whole.1))
        (span_digits-append (decimal n) c t (all_digits-decimal n) d)
    ∙ ap (matched (decimal n)) f
    ∙ matched_lem n unit (String.◌∷◌ c t) u

parsed :
    (s label : String) (ms : ℕ)
    → match_duration s ≡ some ms
    → parse_duration (written s) label ≡ ok ms
unfolding parse_duration
parsed s label ms h = ground (arith, h)

-- The number of units and the unit that the format chose.
format_lem : (ms : ℕ) → match_duration (format_duration ms) ≡ some ms
unfolding format_duration skip_spaces trim_end
format_lem ms = elim (Bool-cases (nat_eqb (ms % 86_400_000) 0 && not (nat_eqb ms 0))) [
  | inl t ↦ rw t (
      match_duration_lem (ms / 86_400_000) 86_400_000 "d" "" refl refl refl
      ∙ ap some (ground (arith, t)))
  | inr t ↦ rw t (elim (Bool-cases (nat_eqb (ms % 3_600_000) 0 && not (nat_eqb ms 0))) [
    | inl u ↦ rw u (
        match_duration_lem (ms / 3_600_000) 3_600_000 "h" "" refl refl refl
        ∙ ap some (ground (arith, u)))
    | inr u ↦ rw u (elim (Bool-cases (nat_eqb (ms % 60_000) 0 && not (nat_eqb ms 0))) [
      | inl v ↦ rw v (
          match_duration_lem (ms / 60_000) 60_000 "m" "" refl refl refl
          ∙ ap some (ground (arith, v)))
      | inr v ↦ rw v (elim (Bool-cases (nat_eqb (ms % 1_000) 0)) [
        | inl w ↦ rw w (
            match_duration_lem (ms / 1_000) 1_000 "s" "" refl refl refl
            ∙ ap some (ground (arith, w)))
        | inr w ↦ rw w (match_duration_lem ms 1 "m" "s" refl refl refl ∙ ap some (omega arith))
      ])
    ])
  ])
]

-- What formatDuration writes, parseDuration reads back, whatever the unit that was chosen.
pub parse_duration-format_duration :
    (ms : ℕ) (label : String) → parse_duration (written (format_duration ms)) label ≡ ok ms
parse_duration-format_duration ms label = parsed (format_duration ms) label ms (format_lem ms)
