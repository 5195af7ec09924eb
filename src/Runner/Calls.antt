-- ===== src/Runner/Calls.antt =====
-- Calls of src/core/runner.ts that may throw, on variables that they change: the value or the error,
-- with the variables as they are then.
use watukuy.Types.{Result, ok, err}

abbrev pub M : Type 0 → Type 0 → Type 0
M S A = S → Result A × S

abbrev pub after : {S A B : Type 0} → Result A × S → (A → M S B) → Result B × S
after (err thrown, s) f = (err thrown, s)
after (ok a, s) f = f a s

infixl 5 ◌>>=◌ ◌>>◌
abbrev pub ◌>>=◌ : {S A B : Type 0} → M S A → (A → M S B) → M S B
(m >>= f) s = after (m s) f

abbrev pub ◌>>◌ : {S B : Type 0} → M S (Unit {0}) → M S B → M S B
m >> k = m >>= λ _. k

abbrev pub modify : {S : Type 0} → (S → S) → M S (Unit {0})
modify f s = (ok tt, f s)

-- A call that did not throw: neither did its parts.
