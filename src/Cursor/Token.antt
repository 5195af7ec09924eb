-- ===== src/Cursor/Token.antt =====
-- src/cursor/token.ts: opaque `next` cursors.
use watukuy.Base.{
  String, string_eq, Option, none, some, if◌then◌else◌, Bool, true, false, not, ◌==◌,
}
use watukuy.Cursor.Timestamp.{AdvanceInput, AdvanceResult}

pub record TokenCursorConfig : Type 0 where
  pub initial : Option String

pub record TokenCursor : Type 0 where
  pub value : Option String

abbrev pub initial : TokenCursorConfig → TokenCursor
initial cfg = record { value = cfg.initial }

-- `input.hasMore === false`
abbrev pub is_last : Option Bool → Bool
is_last (some b) = not b
is_last none = false

abbrev pub exhausted : TokenCursorConfig → AdvanceInput → AdvanceResult TokenCursor
exhausted cfg input = record { cursor = initial cfg; done = true; items = input.items }

abbrev pub advance : TokenCursorConfig → TokenCursor → AdvanceInput → AdvanceResult TokenCursor
advance cfg cursor input = elim input.page_cursor [
  | none ↦ exhausted cfg input
  | some token ↦ if token == "" then exhausted cfg input else record {
    cursor = record { value = some token };
    done = is_last input.has_more;
    items = input.items;
  }
]

abbrev pub reached : TokenCursor → TokenCursor → Bool
reached cursor target = same cursor.value target.value
  where
    same : Option String → Option String → Bool
    same none none = true
    same (some a) (some b) = a == b
    same _ _ = false

abbrev pub from_raw : Option String → TokenCursor
from_raw raw = record { value = raw }
