-- ===== src/Runner/Page.antt =====
-- src/core/runner.ts: what a page of items becomes, before it is committed: `processPage` and
-- `buildEventRow`.
use watukuy.Base.{
  ℕ, ◌+◌, Bool, Option, none, some, String, List, [], ◌∷◌, ◌++◌, map, length, elem, if◌then◌else◌,
  or_else, string_eq,
}
use watukuy.Base.Map
use watukuy.Base.Map.{Map}
use watukuy.Base.Text.{text_take}
use watukuy.Types.{
  Value, string, ResolvedPoller, PKey, Lane, EventType, created, updated, OutboxRow, pending,
  ItemRow, ParkedRow, invalid, Retain, hash_only, payload, quarantine, skip, fail, Result, ok, err,
  validation, ◌>>=◌,
}
use watukuy.Diff.{Change, DiffResult, Prepared, prepare_candidates, diff_candidates}
use watukuy.Diff.EventId.{event_id}
use watukuy.Diff.Canonicalize.{is_undefined, sha256_hex}
use watukuy.Store.{MemoryStore}
use watukuy.Store.Queries.{load_versions}
use watukuy.Validate.{Schema, InvalidItem, validate_items, join_messages}
use Prim.Native.String.{◌++◌ as append}

-- `JSON.parse` gives `none` where it throws, `JSON.stringify` where it gives `undefined`; `digest` is
-- SHA-256. `schema` is `poller.schema`.
pub record PageDeps : Type 0 where
  pub poller : ResolvedPoller
  pub schema : Option Schema
  pub key : PKey
  pub digest : String → List ℕ
  pub json_parse : String → Option Value
  pub json_stringify : Value → Option String

-- `counts` is the numbers of events by type.
pub record PageCommit : Type 0 where
  pub upserts : List ItemRow
  pub events : List OutboxRow
  pub parked : List ParkedRow
  pub sequence : ℕ
  pub created_count : ℕ
  pub updated_count : ℕ

unfoldable pub safe_json : PageDeps → Value → String
safe_json deps value = or_else (deps.json_stringify value) "undefined"

unfoldable pub safe_parse : PageDeps → String → Value
safe_parse deps raw = or_else (deps.json_parse raw) (string raw)

-- What an event row says of its item.
pub record Subject : Type 0 where
  pub type : EventType
  pub identity : String
  pub version : String
  pub item : Option Value
  pub previous : Option Value

unfoldable pub event_id_of : PageDeps → Subject → String
event_id_of deps about = event_id deps.digest (record {
  source = deps.poller.source;
  partition = deps.key.partition;
  identity = about.identity;
  version = about.version;
  schema_version = deps.poller.schema_version;
  type = about.type;
})

unfoldable pub build_event_row : PageDeps → Lane → ℕ → String → Subject → ℕ → OutboxRow
unfolding event_id_of safe_parse
build_event_row deps lane now cursor about sequence = record {
  event_id = event_id_of deps about;
  sequence = sequence;
  event = record {
    id = event_id_of deps about;
    type = about.type;
    source = deps.poller.source;
    subject = about.identity;
    time = now;
    poller = deps.key.poller;
    partition = deps.key.partition;
    lane = lane;
    sequence = sequence;
    cursor = safe_parse deps cursor;
    payload = about.item;
    previous = about.previous;
    attempt = 0;
  };
  status = pending;
  attempts = 0;
  next_attempt_at = none;
  last_error = none;
  created_at = now;
}

-- One event row for each subject, numbered on from the sequence.
unfoldable pub number_events : PageDeps → Lane → ℕ → String → ℕ → List Subject → List OutboxRow
unfolding build_event_row
number_events deps lane now cursor sequence [] = []
number_events deps lane now cursor sequence (s ∷ ss) =
    build_event_row deps lane now cursor s (sequence + 1)
    ∷ number_events deps lane now cursor (sequence + 1) ss

unfoldable pub change_subject : Change → Subject
change_subject c = record {
  type = c.type;
  identity = c.identity;
  version = or_else c.version c.hash;
  item = some c.item;
  previous = c.previous;
}

-- The strings among the identities: no other value finds a stored row or an identity in `seen`.
unfoldable pub strings_of : List Value → List String
strings_of [] = []
strings_of (v ∷ vs) = let rest = strings_of vs in elim v [ string id ↦ id ∷ rest | _ ↦ rest ]

-- `byIdentity`
unfoldable pub by_identity : ResolvedPoller → List Value → Map String Value → Map String Value
by_identity poller [] m = m
by_identity poller (item ∷ items) m =
    by_identity poller items (elim (poller.identity item) [ string id ↦ Map.set id item m | _ ↦ m ])

abbrev pub retained : Retain → ItemRow → Option Value
retained hash_only row = none
retained payload row = row.payload

-- The event of a known item, in a forced backfill: none for `undefined` and for an item without a row.
abbrev pub forced_subject : ResolvedPoller → String → Option Value → Option ItemRow → List Subject
forced_subject poller id none row = []
forced_subject poller id (some item) none = []
forced_subject poller id (some item) (some row) =
    if is_undefined item
    then []
    else record {
      type = updated;
      identity = id;
      version = or_else row.version row.hash;
      item = some item;
      previous = retained poller.retain row;
    }
      ∷ []

unfoldable pub forced_subjects :
    ResolvedPoller
    → List String
    → Map String Value
    → Map String ItemRow
    → List String
    → List Subject
forced_subjects poller changed items existing [] = []
forced_subjects poller changed items existing (id ∷ ids) =
    let rest = forced_subjects poller changed items existing ids in
    if elem id changed
    then rest
    else forced_subject poller id (Map.get id items) (Map.get id existing) ++ rest

abbrev pub is_created : EventType → ℕ
is_created created = 1
is_created _ = 0

abbrev pub is_updated : EventType → ℕ
is_updated updated = 1
is_updated _ = 0

abbrev pub count_type : (EventType → ℕ) → List Subject → ℕ
count_type one [] = 0
count_type one (s ∷ ss) = one s.type + count_type one ss

unfoldable pub parked_invalid : PageDeps → ℕ → InvalidItem → ParkedRow
unfolding safe_json join_messages text_take
parked_invalid deps now inv = record {
  id = append "invalid:" (text_take 32 (sha256_hex deps.digest (safe_json deps inv.item)));
  kind = invalid;
  event = none;
  item = inv.item;
  error = record {
    error = record {
      frame = record {
        name = "ValidationError";
        message = join_messages inv.issues;
        code = none;
        status = none;
      };
      causes = [];
    };
    history = [];
    issues = map (λ i. i.message) inv.issues;
  };
  attempts = 0;
  parked_at = now;
  hold_key = none;
}

-- The invalid items of a page, by `onInvalid`.
unfoldable pub handle_invalid : PageDeps → ℕ → List InvalidItem → Result (List ParkedRow)
unfolding parked_invalid join_messages
handle_invalid deps now [] = ok []
handle_invalid deps now (inv ∷ invs) = elim deps.poller.on_invalid [
  | fail ↦ err (validation (join_messages inv.issues))
  | quarantine ↦ ok (map (parked_invalid deps now) (inv ∷ invs))
  | skip ↦ ok []
]

abbrev pub subjects : PageDeps → Bool → List Value → Map String ItemRow → DiffResult → List Subject
subjects deps force items existing diff =
    map change_subject diff.changes
    ++ (if force
        then forced_subjects deps.poller (map (λ (c : Change). c.identity) diff.changes)
            (by_identity deps.poller items []) existing
            (strings_of (map deps.poller.identity items))
        else [])

-- The page once its items are prepared
unfoldable pub page_commit :
    PageDeps → Lane → ℕ → String → ℕ → List ParkedRow → List ItemRow → List Subject → PageCommit
unfolding number_events
page_commit deps lane now cursor sequence parked upserts about = record {
  upserts = upserts;
  events = number_events deps lane now cursor sequence about;
  parked = parked;
  sequence = sequence + length about;
  created_count = count_type is_created about;
  updated_count = count_type is_updated about;
}

unfoldable pub diff_page :
    PageDeps
    → Lane
    → ℕ
    → String
    → Bool
    → Bool
    → ℕ
    → Map String ItemRow
    → List Value
    → List ParkedRow
    → Prepared
    → PageCommit
unfolding page_commit change_subject forced_subjects by_identity strings_of
diff_page deps lane now cursor full force sequence existing items parked prepared =
    let diff = diff_candidates deps.poller existing now full prepared.candidates in
    page_commit deps lane now cursor sequence parked diff.upserts
      (subjects deps force items existing diff)

unfoldable pub page_rows : PageDeps → MemoryStore → List Value → Map String ItemRow
unfolding strings_of
page_rows deps s items = load_versions s deps.key (strings_of (map deps.poller.identity items))

-- processPage, up to what it adds to `seen`. `full` is `isFullScan`, `cursor` the text of
-- `cursorAfterPage`.
unfoldable pub process_page :
    PageDeps → MemoryStore → Lane → ℕ → List Value → ℕ → Bool → Bool → String → Result PageCommit
unfolding handle_invalid diff_page page_rows
process_page deps s lane now raw sequence full force cursor =
    let page = validate_items deps.schema raw in
    let existing = page_rows deps s page.valid in
    handle_invalid deps now page.invalid >>= λ parked.
    prepare_candidates deps.digest deps.poller existing page.valid >>= λ prepared.
    ok (diff_page deps lane now cursor full force sequence existing page.valid parked prepared)

-- `seen`, after the page
unfoldable pub seen_after : PageDeps → Bool → List Value → List String → List String
unfolding strings_of
seen_after deps full raw seen =
    if full
    then strings_of (map deps.poller.identity (validate_items deps.schema raw).valid) ++ seen
    else seen
