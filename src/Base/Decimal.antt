-- ===== src/Base/Decimal.antt =====
-- `String(n)` for a whole number: its decimal digits.
use Prim.Native.Nat.{ℕ, zero, suc, ◌+◌, ◌-◌, ◌*◌, ◌/◌, ◌%◌, ◌≤◌, ◌<◌}
use Prim.Native.Char.{Char, code}
use Prim.Native.String.{String, ◌++◌}
use mathlib.Core.Path.{◌≡◌, refl, sym, ap, ◌∙◌, subst}
use mathlib.Core.Logic.{inl, inr, ◌≢◌}
use mathlib.Core.Bool.{Bool, true, ◌&&◌}
use native.Mathlib.Omega.{arith}
use text.Mathlib.TextLemmas.{nil-append, cons-append, cons≢nil}
use watukuy.Base.Tests.{leb, ltb, if◌then◌else◌, Bool-cases}

abbrev pick : String → ℕ → Char
pick String.[] n = "0"
pick (String.◌∷◌ c s) zero = c
pick (String.◌∷◌ c s) (suc n) = pick s n

abbrev digit : ℕ → Char
digit n = pick "0123456789" n

-- The fuel `f` is at least the number: a division by ten makes it smaller.
decimal_of : ℕ → ℕ → String
decimal_of zero n = String.◌∷◌ (digit n) String.[]
decimal_of (suc f) n =
    let rest = decimal_of f (n / 10) in
    if ltb n 10
    then String.◌∷◌ (digit n) String.[]
    else rest ++ String.◌∷◌ (digit (n % 10)) String.[]

unfoldable pub decimal : ℕ → String
unfolding decimal_of
decimal n = decimal_of n n

-- The number that digits stand for, read from the left.
abbrev pub value : ℕ → String → ℕ
value a String.[] = a
value a (String.◌∷◌ c s) = value (a * 10 + (code c - 48)) s

digit-value : (n : ℕ) → n < 10 → code (digit n) ≡ n + 48
digit-value zero h = refl
digit-value (suc zero) h = refl
digit-value (suc (suc zero)) h = refl
digit-value (suc (suc (suc zero))) h = refl
digit-value (suc (suc (suc (suc zero)))) h = refl
digit-value (suc (suc (suc (suc (suc zero))))) h = refl
digit-value (suc (suc (suc (suc (suc (suc zero)))))) h = refl
digit-value (suc (suc (suc (suc (suc (suc (suc zero))))))) h = refl
digit-value (suc (suc (suc (suc (suc (suc (suc (suc zero)))))))) h = refl
digit-value (suc (suc (suc (suc (suc (suc (suc (suc (suc zero))))))))) h = refl
digit-value (suc (suc (suc (suc (suc (suc (suc (suc (suc (suc n)))))))))) h = absurd (omega arith)

value-append :
    (a : ℕ) (s : String) (c : Char)
    → value a (s ++ String.◌∷◌ c String.[]) ≡ value a s * 10 + (code c - 48)
value-append a String.[] c = ap (value a) (nil-append (String.◌∷◌ c String.[]))
value-append a (String.◌∷◌ d s) c =
    ap (value a) (cons-append d s (String.◌∷◌ c String.[]))
    ∙ value-append (a * 10 + (code d - 48)) s c

value-decimal_of : (f n : ℕ) → n ≤ f → value 0 (decimal_of f n) ≡ n
unfolding decimal_of
value-decimal_of zero n h = omega (arith, digit-value n (omega arith))
value-decimal_of (suc f) n h = elim (Bool-cases (ltb n 10)) [
  | inl t ↦ rw t (omega (arith, digit-value n (ground arith)))
  | inr t ↦ rw t (
      value-append 0 (decimal_of f (n / 10)) (digit (n % 10))
      ∙ last (value-decimal_of f (n / 10) (omega arith)) (digit-value (n % 10) (omega arith)))
]
  where
    last :
        value 0 (decimal_of f (n / 10)) ≡ n / 10
        → code (digit (n % 10)) ≡ n % 10 + 48
        → value 0 (decimal_of f (n / 10)) * 10 + (code (digit (n % 10)) - 48) ≡ n
    last p q = omega (arith, p, q)

-- Different numbers have different digits.
pub decimal-inj : (m n : ℕ) → decimal m ≡ decimal n → m ≡ n
unfolding decimal
decimal-inj m n p =
    sym (value-decimal_of m m (omega arith)) ∙ ap (value 0) p ∙ value-decimal_of n n (omega arith)

abbrev pub is_digit : Char → Bool
is_digit c = leb b'0' (code c) && leb (code c) b'9'

abbrev pub all_digits : String → Bool
all_digits String.[] = true
all_digits (String.◌∷◌ c s) = is_digit c && all_digits s

digit-is_digit : (n : ℕ) → n < 10 → is_digit (digit n) ≡ true
digit-is_digit n h = ground (arith, digit-value n h)

all_digits-append :
    (s : String) (c : Char)
    → all_digits s ≡ true
    → is_digit c ≡ true
    → all_digits (s ++ String.◌∷◌ c String.[]) ≡ true
all_digits-append String.[] c h k = rw (nil-append (String.◌∷◌ c String.[])) (ground (arith, k))
all_digits-append (String.◌∷◌ d s) c h k =
    rw (cons-append d s (String.◌∷◌ c String.[]))
      (both (is_digit d) (all_digits s) h (all_digits-append s c))
  where
    both :
        (a b : Bool)
        → (a && b) ≡ true
        → (b ≡ true → is_digit c ≡ true → all_digits (s ++ String.◌∷◌ c String.[]) ≡ true)
        → (a && all_digits (s ++ String.◌∷◌ c String.[])) ≡ true
    both a b p f = ground (arith, p, f, k)

all_digits-decimal_of : (f n : ℕ) → n ≤ f → all_digits (decimal_of f n) ≡ true
unfolding decimal_of
all_digits-decimal_of zero n h = ground (arith, digit-is_digit n (omega arith))
all_digits-decimal_of (suc f) n h = elim (Bool-cases (ltb n 10)) [
  | inl t ↦ rw t (ground (arith, digit-is_digit n (ground arith)))
  | inr t ↦ rw t (
      all_digits-append (decimal_of f (n / 10)) (digit (n % 10))
        (all_digits-decimal_of f (n / 10) (omega arith)) (digit-is_digit (n % 10) (omega arith)))
]

-- The digits of a number are digits, and are read back.
pub all_digits-decimal : (n : ℕ) → all_digits (decimal n) ≡ true
unfolding decimal
all_digits-decimal n = all_digits-decimal_of n n (omega arith)

pub value-decimal : (n : ℕ) → value 0 (decimal n) ≡ n
unfolding decimal
value-decimal n = value-decimal_of n n (omega arith)

pub decimal_non_empty : (n : ℕ) → decimal n ≢ String.[]
unfolding decimal decimal_of
decimal_non_empty n p =
    cons≢nil (subst (λ k. decimal_of k k ≡ String.[]) (sym (value-decimal n) ∙ ap (value 0) p) p)
