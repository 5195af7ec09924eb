-- ===== src/Diff/Examples.antt =====
-- The theorems on src/diff/ at concrete inputs.
use watukuy.Base.{
  filter, String, none, some, List, [], ◌∷◌, ◌≡◌, ◌≢◌, refl, arith, false, map, elem, string_eq,
  All,
}
use watukuy.Base.Map
use watukuy.Base.Map.{Map}
use watukuy.Base.Text.{codes, str_leb}
use watukuy.Base.Sort.{sort}
use watukuy.Base.Decimal.{decimal}
use text.Mathlib.TextEquality.{eq_iff}
use watukuy.Types.{Value, string, object, member, no_members, ItemRow, created, updated}
use watukuy.Types.Samples.{orders_poller as orders, order}
use watukuy.Diff.{
  DiffCandidate, diff_candidates, detect_deletes, prepare_candidates, Prepared, identity_of, latest,
  prepare_loop, fingerprint_of,
}
use watukuy.Diff.Again.{diff_candidates_again}
use watukuy.Diff.Announced.{diff_candidates_lem, reports, brief, identities, is_same, is_silent}
use watukuy.Diff.Latest.{prepare_candidates_lem, candidate_id, last_item, Reported}
use watukuy.Diff.EventId.{EventIdParts, event_id_material, event_id_material-inj}
use watukuy.Diff.Canonicalize.{canonicalize, hash_value, serialize_object, json_string}
use watukuy.Diff.Reordered.{in_object, swap, canonicalize-Reordered}

abbrev flipped : String → String → Value
flipped id status = object (member "status" (string status) (member "id" (string id) no_members))

abbrev page : List Value
page = order "o1" "open" ∷ order "o2" "open" ∷ order "o1" "paid" ∷ []

abbrev candidate : String → String → DiffCandidate
candidate id status = record {
  identity = id;
  item = order id status;
  version = none;
  hash = status;
}

abbrev row : String → String → ItemRow
row id status = record {
  identity = id;
  version = none;
  hash = status;
  schema_version = 1;
  payload = none;
  seen_at = 0;
}

abbrev rows : Map String ItemRow
rows = ("o2", row "o2" "open") ∷ ("o3", row "o3" "open") ∷ []

abbrev candidates : List DiffCandidate
candidates = candidate "o1" "paid" ∷ candidate "o2" "paid" ∷ candidate "o3" "open" ∷ []

apart : ◌≢◌ {A = String} "o2" "o1" × ◌≢◌ {A = String} "o3" "o1" × ◌≢◌ {A = String} "o3" "o2"
apart = (
  ground (arith, eq_iff "o2" "o1"),
  ground (arith, eq_iff "o3" "o1"),
  ground (arith, eq_iff "o3" "o2"),
)

diff_candidates_again_example :
    diff_candidates orders
      (Map.set_all (λ r. r.identity) (diff_candidates orders rows 5 false candidates).upserts rows)
      9
      false
      candidates
    ≡ record { changes = []; upserts = []; unchanged = "o1" ∷ "o2" ∷ "o3" ∷ []; rebaselined = [] }
diff_candidates_again_example =
    diff_candidates_again orders rows 5 9 false candidates
      ((apart.0, (apart.1, tt)), ((apart.2, tt), (tt, tt)))

diff_candidates_example :
    (map (brief orders rows 5 false) (diff_candidates orders rows 5 false candidates).changes
      ≡ ("o1", created) ∷ ("o2", updated) ∷ [])
    × ((diff_candidates orders rows 5 false candidates).unchanged
        ≡ identities orders rows 5 false
            (filter (λ (c : DiffCandidate). is_same orders c (Map.get c.identity rows)) candidates))
    × ((diff_candidates orders rows 5 false candidates).rebaselined
        ≡ identities orders rows 5 false (
            filter
              (λ (c : DiffCandidate). is_silent orders c (Map.get c.identity rows))
              candidates))
    × (reports orders rows 5 false (diff_candidates orders rows 5 false candidates) ≡ 3)
unfolding Map.get
diff_candidates_example = diff_candidates_lem orders rows 5 false candidates

abbrev prepared : Prepared
prepared = record {
  candidates =
      record {
        identity = "o1";
        item = order "o1" "paid";
        version = none;
        hash = "7b226964223a226f31222c22737461747573223a2270616964227d";
      }
      ∷ record {
        identity = "o2";
        item = order "o2" "open";
        version = none;
        hash = "7b226964223a226f32222c22737461747573223a226f70656e227d";
      }
      ∷ [];
  unchanged = [];
}

prepare_candidates_example :
    Map.Distinct candidate_id prepared.candidates
    × All (λ c. last_item orders c.identity page none ≡ some c.item) prepared.candidates
    × ((id : String) (item : Value)
        → last_item orders id page none ≡ some item
        → Reported codes orders [] prepared id)
unfolding prepare_candidates prepare_loop latest identity_of fingerprint_of hash_value Map.set
    Map.get serialize_object sort str_leb json_string
prepare_candidates_example = prepare_candidates_lem codes orders [] page prepared refl

deletes_in_order : detect_deletes ("o3" ∷ "o1" ∷ "o2" ∷ []) ("o1" ∷ []) ≡ "o2" ∷ "o3" ∷ []
unfolding detect_deletes sort elem str_leb
deletes_in_order = refl

canonicalize-Reordered_example :
    (canonicalize (order "o1" "open") ≡ canonicalize (flipped "o1" "open"))
    × (hash_value codes (order "o1" "open") ≡ hash_value codes (flipped "o1" "open"))
unfolding str_leb
canonicalize-Reordered_example =
    canonicalize-Reordered codes (order "o1" "open") (flipped "o1" "open") (in_object (swap refl))

abbrev parts : EventIdParts
parts = record {
  source = "urn:watukuy:orders";
  partition = "a|b";
  identity = "o1";
  version = "v1";
  schema_version = 12;
  type = created;
}

event_id_material-inj_example : parts ≡ parts
event_id_material-inj_example = event_id_material-inj parts parts refl

material : event_id_material parts ≡ "watukuy|v1|urn:watukuy:orders|a\\|b|o1|v1|12|created"
unfolding event_id_material decimal
material = refl
