-- ===== src/Diff/EventId.antt =====
-- src/diff/event-id.ts: the text that an event id is the hash of.
use watukuy.Base.{
  ℕ, String, Option, none, some, ◌≡◌, refl, sym, ap, ◌∙◌, if◌then◌else◌, List, [], ◌∷◌, map, inl,
  inr, nat_eqb, ◌||◌, Bool-cases, arith, Bool, true, false,
}
use watukuy.Base.Decimal.{decimal, decimal-inj}
use watukuy.Types.{EventType, created, updated, deleted}
use watukuy.Diff.Canonicalize.{sha256_hex}
use Prim.Native.Char.{Char, code}
use Prim.Native.String.{◌++◌}
use text.Mathlib.TextLemmas.{nil-append, cons-append, append-nil, append_cancel_left}
use text.Mathlib.TextEquality.{eq_iff}

pub record EventIdParts : Type 0 where
  pub source : String
  pub partition : String
  pub identity : String
  pub version : String
  pub schema_version : ℕ
  pub type : EventType

abbrev pub type_text : EventType → String
type_text created = "created"
type_text updated = "updated"
type_text deleted = "deleted"

abbrev pub special : Char → Bool
special c = nat_eqb (code c) b'|' || nat_eqb (code c) 92

unfoldable pub escape_part : String → String
escape_part String.[] = String.[]
escape_part (String.◌∷◌ c s) =
    let rest = escape_part s in
    if special c then String.◌∷◌ "\\" (String.◌∷◌ c rest) else String.◌∷◌ c rest

-- `parts.join('|')`
unfoldable pub join : List String → String
join [] = String.[]
join (s ∷ []) = s
join (s ∷ t ∷ ts) = s ++ String.◌∷◌ "|" (join (t ∷ ts))

abbrev pub fields : EventIdParts → List String
fields p =
    p.source
    ∷ p.partition
    ∷ p.identity
    ∷ p.version
    ∷ decimal p.schema_version
    ∷ type_text p.type
    ∷ []

unfoldable pub event_id_material : EventIdParts → String
unfolding join escape_part
event_id_material p = "watukuy|v1|" ++ join (map escape_part (fields p))

-- Reads one part up to a separator that no backslash precedes, and what follows the separator.
mutual
  read_part : String → String × Option String
  read_part String.[] = (String.[], none)
  read_part (String.◌∷◌ c s) =
      if nat_eqb (code c) b'|'
      then (String.[], some s)
      else if nat_eqb (code c) 92
      then read_escaped s
      else (let r = read_part s in (String.◌∷◌ c r.0, r.1))

  read_escaped : String → String × Option String
  read_escaped String.[] = (String.[], none)
  read_escaped (String.◌∷◌ c s) = let r = read_part s in (String.◌∷◌ c r.0, r.1)

abbrev push : Char → String × Option String → String × Option String
push c r = (String.◌∷◌ c r.0, r.1)

read_part-special :
    (c : Char) (s t : String)
    → special c ≡ true
    → read_part (escape_part (String.◌∷◌ c s) ++ t) ≡ push c (read_part (escape_part s ++ t))
unfolding escape_part read_part
read_part-special c s t h = rw h (
    rw (cons-append "\\" (String.◌∷◌ c (escape_part s)) t)
      (rw (cons-append c (escape_part s) t) refl))

read_part-plain :
    (c : Char) (s t : String)
    → special c ≡ false
    → read_part (escape_part (String.◌∷◌ c s) ++ t) ≡ push c (read_part (escape_part s ++ t))
unfolding escape_part read_part
read_part-plain c s t h = rw h (rw (cons-append c (escape_part s) t) (ground arith))

read_part-cons :
    (c : Char) (s t : String)
    → read_part (escape_part (String.◌∷◌ c s) ++ t) ≡ push c (read_part (escape_part s ++ t))
read_part-cons c s t = elim (Bool-cases (special c)) [
  | inl h ↦ read_part-special c s t h
  | inr h ↦ read_part-plain c s t h
]

read_part-escape_part : (s t : String) → read_part (escape_part s ++ String.◌∷◌ "|" t) ≡ (s, some t)
unfolding escape_part read_part
read_part-escape_part String.[] t = rw (nil-append (String.◌∷◌ "|" t)) refl
read_part-escape_part (String.◌∷◌ c s) t =
    read_part-cons c s (String.◌∷◌ "|" t) ∙ ap (push c) (read_part-escape_part s t)

read_part-last : (s : String) → read_part (escape_part s) ≡ (s, none)
unfolding escape_part read_part
read_part-last String.[] = refl
read_part-last (String.◌∷◌ c s) =
    ap read_part (sym (append-nil (escape_part (String.◌∷◌ c s))))
    ∙ read_part-cons c s String.[]
    ∙ ap (λ x. push c (read_part x)) (append-nil (escape_part s))
    ∙ ap (push c) (read_part-last s)

-- The parts of a joined text are read back, so that two lists of one length with the same text agree.
Agree : List String → List String → Type 0
Agree [] [] = Unit
Agree (s ∷ ss) (t ∷ ts) = (s ≡ t) × Agree ss ts
Agree _ _ = ⊥

rest : List String → Option String
rest [] = none
rest (s ∷ ss) = some (join (map escape_part (s ∷ ss)))

read_part-join :
    (s : String) (ss : List String) → read_part (join (map escape_part (s ∷ ss))) ≡ (s, rest ss)
unfolding join rest
read_part-join s [] = read_part-last s
read_part-join s (t ∷ ts) = read_part-escape_part s (join (map escape_part (t ∷ ts)))

rest-Agree : (ss ts : List String) → rest ss ≡ rest ts → Agree ss ts
unfolding rest Agree
rest-Agree [] [] p = tt
rest-Agree [] (t ∷ ts) p = absurd (cc p)
rest-Agree (s ∷ ss) [] p = absurd (cc p)
rest-Agree (s ∷ ss) (t ∷ ts) p = (ap (λ r. r.0) q, rest-Agree ss ts (ap (λ r. r.1) q))
  where
    q : ◌≡◌ {A = String × Option String} (s, rest ss) (t, rest ts)
    q = sym (read_part-join s ss) ∙ ap read_part (cc p) ∙ read_part-join t ts

type_text-inj : (a b : EventType) → type_text a ≡ type_text b → a ≡ b
type_text-inj created created p = refl
type_text-inj created updated p = absurd (ground (arith, p, eq_iff "created" "updated"))
type_text-inj created deleted p = absurd (ground (arith, p, eq_iff "created" "deleted"))
type_text-inj updated created p = absurd (ground (arith, p, eq_iff "updated" "created"))
type_text-inj updated updated p = refl
type_text-inj updated deleted p = absurd (ground (arith, p, eq_iff "updated" "deleted"))
type_text-inj deleted created p = absurd (ground (arith, p, eq_iff "deleted" "created"))
type_text-inj deleted updated p = absurd (ground (arith, p, eq_iff "deleted" "updated"))
type_text-inj deleted deleted p = refl

-- Two changes with the same text agree in source, partition, identity, version, schema version and
-- type, whatever separators their fields hold.
pub event_id_material-inj : (p q : EventIdParts) → event_id_material p ≡ event_id_material q → p ≡ q
unfolding event_id_material Agree rest
event_id_material-inj p q h =
    let a = rest-Agree (fields p) (fields q) (same_rest h) in
    cc (
      a.0,
      a.1.0,
      a.1.1.0,
      a.1.1.1.0,
      decimal-inj p.schema_version q.schema_version a.1.1.1.1.0,
      type_text-inj p.type q.type a.1.1.1.1.1.0,
    )
  where
    same_rest :
        "watukuy|v1|" ++ join (map escape_part (fields p))
          ≡ "watukuy|v1|" ++ join (map escape_part (fields q))
        → rest (fields p) ≡ rest (fields q)
    same_rest k = ap some (append_cancel_left "watukuy|v1|" _ _ k)

-- The event id itself; `digest` is the SHA-256 of Web Crypto.
unfoldable pub event_id : (String → List ℕ) → EventIdParts → String
unfolding event_id_material
event_id digest parts = sha256_hex digest (event_id_material parts)
