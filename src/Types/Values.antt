-- ===== src/Types/Values.antt =====
-- The values that the program calls `unknown`: items, payloads, parsed JSON.
use watukuy.Base.{ℕ, zero, Bool, String}
use watukuy.Base.Decimal.{decimal}
use Prim.Native.String.{◌++◌}

-- Numbers are the integers and the values that JSON cannot hold; fractions are not modelled.
pub data Number : Type 0 where
  nat : ℕ → Number
  neg : ℕ → Number
  nan : Number
  infinity : Number
  neg_infinity : Number

-- `String(n)`
unfoldable pub number_text : Number → String
number_text (nat n) = decimal n
number_text (neg zero) = "0"
number_text (neg n) = "-" ++ decimal n
number_text nan = "NaN"
number_text infinity = "Infinity"
number_text neg_infinity = "-Infinity"

mutual
  pub data Value : Type 0 where
    undefined : Value
    null : Value
    boolean : Bool → Value
    number : Number → Value
    string : String → Value
    array : Elements → Value
    object : Members → Value

  pub data Elements : Type 0 where
    no_elements : Elements
    element : Value → Elements → Elements

  pub data Members : Type 0 where
    no_members : Members
    member : String → Value → Members → Members
