-- ===== src/Diff/Reordered.antt =====
-- src/diff/canonicalize.ts: the canonical text does not depend on the order of an object's members.
use watukuy.Base.{ℕ, String, ◌≡◌, refl, ap, ◌∙◌, List, [], ◌∷◌, false, ◌&&◌, arith}
use watukuy.Base.Text.{str_leb, str_leb_total, str_leb_trans}
use watukuy.Base.Sort.{sort, insert}
use watukuy.Types.{Value, array, object, Elements, no_elements, element, Members, member, ok, ◌>>=◌}
use watukuy.Diff.Canonicalize.{
  canonicalize, hash_value, serialize, serialize_elements, serialize_members, serialize_object,
  is_undefined, key_leb, Member, commas, member_texts,
}
use Prim.Native.String.{◌++◌}

-- Two values that differ in the order of members only. Neighbours change places when the order of
-- strings tells their keys apart.
mutual
  pub data Reordered : Value → Value → Type 0 where
    same : {v : Value} → Reordered v v
    in_array : {es fs : Elements} → ReorderedElements es fs → Reordered (array es) (array fs)
    in_object : {ms ns : Members} → ReorderedMembers ms ns → Reordered (object ms) (object ns)

  pub data ReorderedElements : Elements → Elements → Type 0 where
    stop : ReorderedElements no_elements no_elements
    next :
        {v w : Value} {es fs : Elements}
        → Reordered v w
        → ReorderedElements es fs
        → ReorderedElements (element v es) (element w fs)

  pub data ReorderedMembers : Members → Members → Type 0 where
    level : {ms : Members} → ReorderedMembers ms ms
    keep :
        {key : String} {v w : Value} {ms ns : Members}
        → Reordered v w
        → ReorderedMembers ms ns
        → ReorderedMembers (member key v ms) (member key w ns)
    swap :
        {k j : String} {v w : Value} {ms : Members}
        → (str_leb k j && str_leb j k) ≡ false
        → ReorderedMembers (member k v (member j w ms)) (member j w (member k v ms))
    chain :
        {ms ns os : Members}
        → ReorderedMembers ms ns
        → ReorderedMembers ns os
        → ReorderedMembers ms os

-- Two members that the order tells apart can be inserted either way round.
insert_comm :
    (x y : Member) (ms : List Member)
    → (str_leb x.0 y.0 && str_leb y.0 x.0) ≡ false
    → insert key_leb x (insert key_leb y ms) ≡ insert key_leb y (insert key_leb x ms)
unfolding insert
insert_comm x y [] h = ground (arith, h, str_leb_total x.0 y.0)
insert_comm x y (m ∷ ms) h = ground (
  arith,
  h,
  str_leb_total x.0 y.0,
  str_leb_trans x.0 m.0 y.0,
  str_leb_trans y.0 m.0 x.0,
  str_leb_total x.0 m.0,
  str_leb_total y.0 m.0,
  str_leb_trans x.0 y.0 m.0,
  str_leb_trans y.0 x.0 m.0,
  insert_comm x y ms h,
)

is_undefined-Reordered : (v w : Value) → Reordered v w → is_undefined v ≡ is_undefined w
is_undefined-Reordered v w same = refl
is_undefined-Reordered _ _ (in_array r) = refl
is_undefined-Reordered _ _ (in_object r) = refl

serialize-in_object :
    (ms ns : Members)
    → sort key_leb (serialize_members ms) ≡ sort key_leb (serialize_members ns)
    → serialize (object ms) ≡ serialize (object ns)
unfolding serialize serialize_object
serialize-in_object ms ns e = ap (λ l. member_texts l >>= λ ts. ok ("{" ++ (commas ts ++ "}"))) e

mutual
  unfolding serialize sort serialize_object

  serialize-Reordered : (v w : Value) → Reordered v w → serialize v ≡ serialize w
  serialize-Reordered v w same = refl
  serialize-Reordered _ _ (in_array {es} {fs} r) =
      ap (λ l. l >>= λ ts. ok ("[" ++ (commas ts ++ "]"))) (serialize-ReorderedElements es fs r)
  serialize-Reordered _ _ (in_object {ms} {ns} r) =
      serialize-in_object ms ns (sort-ReorderedMembers ms ns r)

  serialize-ReorderedElements :
      (es fs : Elements) → ReorderedElements es fs → serialize_elements es ≡ serialize_elements fs
  serialize-ReorderedElements _ _ stop = refl
  serialize-ReorderedElements _ _ (next {v} {w} {es} {fs} r rs) =
      ap (λ t. t >>= λ x. serialize_elements es >>= λ xs. ok (x ∷ xs)) (serialize-Reordered v w r)
      ∙ ap (λ t. serialize w >>= λ x. t >>= λ xs. ok (x ∷ xs))
          (serialize-ReorderedElements es fs rs)

  sort-ReorderedMembers :
      (ms ns : Members)
      → ReorderedMembers ms ns
      → sort key_leb (serialize_members ms) ≡ sort key_leb (serialize_members ns)
  sort-ReorderedMembers _ _ level = refl
  sort-ReorderedMembers _ _ (keep {key} {v} {w} {ms} {ns} r rs) = ground (
    arith,
    is_undefined-Reordered v w r,
    serialize-Reordered v w r,
    sort-ReorderedMembers ms ns rs,
  )
  sort-ReorderedMembers _ _ (swap {k} {j} {v} {w} {ms} h) =
      ground (
        arith,
        insert_comm (k, serialize v) (j, serialize w) (sort key_leb (serialize_members ms)) h,
      )
  sort-ReorderedMembers _ _ (chain {ms} {ns} {os} p q) =
      sort-ReorderedMembers ms ns p ∙ sort-ReorderedMembers ns os q

-- Values that differ only in the order of their members have one canonical text, and so one hash.
pub canonicalize-Reordered :
    (digest : String → List ℕ) (v w : Value)
    → Reordered v w
    → (canonicalize v ≡ canonicalize w) × (hash_value digest v ≡ hash_value digest w)
unfolding canonicalize hash_value
canonicalize-Reordered digest v w r = let e = serialize-Reordered v w r in (e, cc e)
