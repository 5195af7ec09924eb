-- ===== src/Types/Outcome.antt =====
-- A call that may throw: its value, or the error.
use watukuy.Base.{Bool, true, false, ◌≡◌, refl}
use watukuy.Types.Errors.{Error}

pub data Result {ℓ} (A : Type ℓ) : Type ℓ where
  err : Error → Result A
  ok : A → Result A

abbrev pub is_ok {ℓ} : {A : Type ℓ} → Result A → Bool
is_ok (err _) = false
is_ok (ok _) = true

infixl 5 ◌>>=◌
abbrev pub ◌>>=◌ {ℓ κ} : {A : Type ℓ} {B : Type κ} → Result A → (A → Result B) → Result B
err thrown >>= _ = err thrown
ok value >>= next = next value

pub ok_inj {ℓ} : {A : Type ℓ} {a b : A} → ok a ≡ ok b → a ≡ b
ok_inj e = cc e

-- A chain that succeeds: each of its calls does.
module _ {ℓ κ} {A : Type ℓ} {B : Type κ} {result : B} where
  pub chain-ok :
      (first : Result A) (next : A → Result B)
      → (first >>= next) ≡ ok result
      → (value : A) × (first ≡ ok value) × (next value ≡ ok result)
  chain-ok (ok value) next done = (value, refl, done)
  chain-ok (err thrown) next done = absurd (cc done)
