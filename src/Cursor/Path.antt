-- ===== src/Cursor/Path.antt =====
-- src/cursor/path.ts: a dot path into a value. Of an array, its elements and its length are
-- properties; inherited properties are left out.
use watukuy.Base.{ℕ, suc, String, List, [], ◌∷◌, if◌then◌else◌, nat_eqb, ◌==◌, string_eq}
use watukuy.Base.Decimal.{decimal}
use watukuy.Types.{
  Value, undefined, number, array, object, nat, Elements, no_elements, element, Members, no_members,
  member,
}
use Prim.Native.Char.{code}

-- `path.split('.')`
unfoldable pub split_dots : String → List String
split_dots String.[] = String.[] ∷ []
split_dots (String.◌∷◌ c s) =
    let rest = split_dots s in
    if nat_eqb (code c) b'.'
    then String.[] ∷ rest
    else elim rest [ [] ↦ (String.◌∷◌ c String.[]) ∷ [] | t ∷ ts ↦ (String.◌∷◌ c t) ∷ ts ]

unfoldable pub own_member : String → Members → Value
own_member key no_members = undefined
own_member key (member k v ms) = if k == key then v else own_member key ms

abbrev pub count : Elements → ℕ
count no_elements = 0
count (element v es) = suc (count es)

unfoldable pub own_element : String → ℕ → Elements → Value
own_element key i no_elements = undefined
own_element key i (element v es) = if decimal i == key then v else own_element key (suc i) es

unfoldable pub property : Value → String → Value
unfolding own_member own_element
property (object ms) key = own_member key ms
property (array es) key = if key == "length" then number (nat (count es)) else own_element key 0 es
property v key = undefined

unfoldable pub walk : Value → List String → Value
unfolding property
walk v [] = v
walk v (key ∷ keys) = walk (property v key) keys

unfoldable pub get_path : Value → String → Value
unfolding walk split_dots
get_path obj path = if path == "" then obj else walk obj (split_dots path)
