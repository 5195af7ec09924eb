-- ===== src/Base/Text.antt =====
-- Strings as the language orders them: by UTF-16 code units.
use Prim.Native.Nat.{ℕ, zero, suc, ◌+◌, ◌-◌, ◌/◌, ◌%◌}
use Prim.Native.Char.{code}
use Prim.Native.String.{String}
use watukuy.Base.Tests.{ltb, if◌then◌else◌}
use mathlib.Core.Path.{◌≡◌, refl}
use mathlib.Core.Bool.{Bool, true, false}
use mathlib.Core.Logic.{◌⊎◌, inl, inr}
use mathlib.Core.List.{List, [], ◌∷◌}
use native.Mathlib.Omega.{arith}

abbrev pub codes : String → List ℕ
codes String.[] = []
codes (String.◌∷◌ c s) = code c ∷ codes s

-- `s.slice(0, n)`, for texts of ASCII characters
unfoldable pub text_take : ℕ → String → String
text_take zero s = String.[]
text_take (suc n) String.[] = String.[]
text_take (suc n) (String.◌∷◌ c s) = String.◌∷◌ c (text_take n s)

-- A code point above 0xffff is a pair of surrogates.
abbrev pub units : List ℕ → List ℕ
units [] = []
units (c ∷ cs) =
    let rest = units cs in
    if ltb c 0x10000
    then c ∷ rest
    else (0xd800 + (c - 0x10000) / 1024) ∷ (0xdc00 + (c - 0x10000) % 1024) ∷ rest

abbrev pub units_leb : List ℕ → List ℕ → Bool
units_leb [] ys = true
units_leb (x ∷ xs) [] = false
units_leb (x ∷ xs) (y ∷ ys) =
    let rest = units_leb xs ys in if ltb x y then true else if ltb y x then false else rest

-- `a <= b` on strings.
unfoldable pub str_leb : String → String → Bool
str_leb a b = units_leb (units (codes a)) (units (codes b))

units_leb_total : (xs ys : List ℕ) → (units_leb xs ys ≡ true) ⊎ (units_leb ys xs ≡ true)
units_leb_total [] ys = inl refl
units_leb_total (x ∷ xs) [] = inr refl
units_leb_total (x ∷ xs) (y ∷ ys) = ground (arith, units_leb_total xs ys)

units_leb_trans :
    (xs ys zs : List ℕ) → units_leb xs ys ≡ true → units_leb ys zs ≡ true → units_leb xs zs ≡ true
units_leb_trans [] ys zs p q = refl
units_leb_trans (x ∷ xs) [] zs p q = cc
units_leb_trans (x ∷ xs) (y ∷ ys) [] p q = cc
units_leb_trans (x ∷ xs) (y ∷ ys) (z ∷ zs) p q = ground (arith, units_leb_trans xs ys zs)

pub str_leb_total : (a b : String) → (str_leb a b ≡ true) ⊎ (str_leb b a ≡ true)
unfolding str_leb
str_leb_total a b = units_leb_total (units (codes a)) (units (codes b))

pub str_leb_trans : (a b c : String) → str_leb a b ≡ true → str_leb b c ≡ true → str_leb a c ≡ true
unfolding str_leb
str_leb_trans a b c = units_leb_trans (units (codes a)) (units (codes b)) (units (codes c))
