-- ===== src/Base/Rounding.antt =====
-- `Math.round` and `Math.ceil` of a quotient of natural numbers, with their error bounds.
use Prim.Native.Nat.{ℕ, ◌+◌, ◌-◌, ◌*◌, ◌/◌, ◌≤◌, ◌<◌}
use native.Mathlib.Omega.{arith}
use native.Mathlib.Nat.{mul-div-le, lt-mul-div-succ}

-- `Math.round(n / d)`: halves go up.
unfoldable pub round_div : ℕ → ℕ → ℕ
round_div n d = (2 * n + d) / (2 * d)

-- `Math.ceil(n / d)`
unfoldable pub ceil_div : ℕ → ℕ → ℕ
ceil_div n d = (n + d - 1) / d

double_pos : (d : ℕ) → 0 < d → 0 < 2 * d
double_pos d h = omega arith

-- The rounded quotient is at most half away.
pub round_div_bounds :
    (n d : ℕ) → 0 < d → (2 * d * round_div n d ≤ 2 * n + d) × (2 * n < 2 * d * round_div n d + d)
unfolding round_div
round_div_bounds n d h = (
  grind (arith, mul-div-le (2 * n + d) (2 * d)),
  grind (arith, lt-mul-div-succ (2 * n + d) (double_pos d h)),
)

-- The ceiling covers the whole.
pub le-mul-ceil_div : (n d : ℕ) → 0 < d → n ≤ d * ceil_div n d
unfolding ceil_div
le-mul-ceil_div n d h = grind (arith, lt-mul-div-succ (n + d - 1) h)

-- And by less than one more.
pub mul-ceil_div-lt : (n d : ℕ) → 0 < d → d * ceil_div n d < n + d
unfolding ceil_div
mul-ceil_div-lt n d h = grind (arith, mul-div-le (n + d - 1) d)
