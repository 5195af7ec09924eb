-- ===== src/Diff/Canonicalize.antt =====
-- src/diff/canonicalize.ts and src/diff/hash.ts, with `sha256Hex` of src/core/hash.ts: the canonical
-- JSON text of a value and its hash. A value here is JSON data or `undefined`, so that the cases for
-- functions, symbols, big integers, `toJSON`, boxed primitives, maps, sets and cycles do not arise.
use watukuy.Base.{
  ℕ, zero, suc, ◌/◌, ◌%◌, String, if◌then◌else◌, List, [], ◌∷◌, Bool, true, false, nat_eqb, ltb,
}
use watukuy.Base.Decimal.{decimal}
use watukuy.Base.Text.{str_leb}
use watukuy.Base.Sort.{sort}
use watukuy.Types.{
  Value, undefined, null, boolean, number, string, array, object, Number, nat, neg, nan, infinity,
  neg_infinity, Elements, no_elements, element, Members, no_members, member, Result, ok, err,
  type_error, ◌>>=◌,
}
use Prim.Native.Char.{Char, code}
use Prim.Native.String.{◌++◌}

abbrev pub hex : ℕ → String
hex n = nibble "0123456789abcdef" n
  where
    nibble : String → ℕ → String
    nibble String.[] k = "0"
    nibble (String.◌∷◌ c s) zero = String.◌∷◌ c String.[]
    nibble (String.◌∷◌ c s) (suc k) = nibble s k

-- What `JSON.stringify` puts for one character of a string.
unfoldable pub json_char : Char → String
json_char c =
    if nat_eqb (code c) 34
    then "\\\""
    else if nat_eqb (code c) 92
    then "\\\\"
    else if nat_eqb (code c) 8
    then "\\b"
    else if nat_eqb (code c) 9
    then "\\t"
    else if nat_eqb (code c) 10
    then "\\n"
    else if nat_eqb (code c) 12
    then "\\f"
    else if nat_eqb (code c) 13
    then "\\r"
    else if ltb (code c) 32
    then "\\u00" ++ (hex (code c / 16) ++ hex (code c % 16))
    else String.◌∷◌ c String.[]

unfoldable pub json_chars : String → String
unfolding json_char
json_chars String.[] = String.[]
json_chars (String.◌∷◌ c s) = json_char c ++ json_chars s

-- `JSON.stringify(s)`
unfoldable pub json_string : String → String
unfolding json_chars
json_string s = "\"" ++ (json_chars s ++ "\"")

-- Whole numbers print as digits below 10^21, the range that is modelled.
unfoldable pub serialize_number : Number → Result String
serialize_number (nat n) = ok (decimal n)
serialize_number (neg zero) = ok "0"
serialize_number (neg (suc n)) = ok ("-" ++ decimal (suc n))
serialize_number nan = err (type_error "canonicalize: NaN is not representable in JSON")
serialize_number infinity = err (type_error "canonicalize: Infinity is not representable in JSON")
serialize_number neg_infinity =
    err (type_error "canonicalize: -Infinity is not representable in JSON")

-- `out` with its separators: the first text stands bare, the others after a comma.
abbrev pub commas : List String → String
commas [] = ""
commas (s ∷ []) = s
commas (s ∷ t ∷ ts) = s ++ ("," ++ commas (t ∷ ts))

abbrev pub Member : Type 0
Member = String × Result String

abbrev pub key_leb : Member → Member → Bool
key_leb a b = str_leb a.0 b.0

-- The members in sorted order; the first that throws ends the walk.
unfoldable pub member_texts : List Member → Result (List String)
member_texts [] = ok []
member_texts ((key, text) ∷ ms) =
    text >>= λ t. member_texts ms >>= λ ts. ok ((json_string key ++ (":" ++ t)) ∷ ts)

unfoldable pub serialize_object : List Member → Result String
unfolding member_texts
serialize_object ms = member_texts (sort key_leb ms) >>= λ ts. ok ("{" ++ (commas ts ++ "}"))

abbrev pub is_undefined : Value → Bool
is_undefined undefined = true
is_undefined _ = false

unfoldable mutual
  pub serialize : Value → Result String
  serialize undefined = ok "null"
  serialize null = ok "null"
  serialize (boolean true) = ok "true"
  serialize (boolean false) = ok "false"
  serialize (number n) = serialize_number n
  serialize (string s) = ok (json_string s)
  serialize (array es) = serialize_elements es >>= λ ts. ok ("[" ++ (commas ts ++ "]"))
  serialize (object ms) = serialize_object (serialize_members ms)

  pub serialize_elements : Elements → Result (List String)
  serialize_elements no_elements = ok []
  serialize_elements (element v es) =
      serialize v >>= λ t. serialize_elements es >>= λ ts. ok (t ∷ ts)

  -- A member that is `undefined` is left out; the others wait for their turn in the sorted order.
  pub serialize_members : Members → List Member
  serialize_members no_members = []
  serialize_members (member key v ms) =
      let text = serialize v in
      let rest = serialize_members ms in if is_undefined v then rest else (key, text) ∷ rest

unfoldable pub canonicalize : Value → Result String
unfolding serialize
canonicalize value = serialize value

unfoldable pub to_hex : List ℕ → String
to_hex [] = ""
to_hex (b ∷ bytes) = hex (b / 16) ++ (hex (b % 16) ++ to_hex bytes)

-- `digest` is the SHA-256 of the UTF-8 bytes of a string, from Web Crypto.
module _ (digest : String → List ℕ) where
  unfoldable pub sha256_hex : String → String
  unfolding to_hex
  sha256_hex input = to_hex (digest input)

  unfoldable pub hash_value : Value → Result String
  unfolding canonicalize sha256_hex
  hash_value value = canonicalize value >>= λ text. ok (sha256_hex text)
