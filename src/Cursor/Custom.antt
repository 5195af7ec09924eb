-- ===== src/Cursor/Custom.antt =====
-- src/cursor/custom.ts and src/cursor/snapshot-diff.ts: the user's own cursor, and no cursor at all.
use watukuy.Base.{String, string_eq, Option, none, some, List, Bool, not, ◌==◌}
use watukuy.Types.{Value, Result, ok, err, config}
use watukuy.Cursor.Timestamp.{AdvanceInput, AdvanceResult, is_more}

pub record CustomInput (C : Type 0) : Type 0 where
  pub cursor : C
  pub items : List Value
  pub page_cursor : Option String
  pub has_more : Bool

-- The user's `advance` gives `none` where what it returns has no Boolean `done`. `serialize` and
-- `deserialize` are the configured functions or the JSON ones.
pub record CustomCursorConfig (C : Type 0) : Type 0 where
  pub initial : C
  pub advance : CustomInput C → Option (C × Bool)
  pub serialize : C → String
  pub deserialize : String → Result C

module _ {C : Type 0} (cfg : CustomCursorConfig C) where
  abbrev pub advance : C → AdvanceInput → Result (AdvanceResult C)
  advance cursor input =
      elim (cfg.advance (record {
        cursor = cursor;
        items = input.items;
        page_cursor = input.page_cursor;
        has_more = is_more input.has_more;
      })) [
        | none ↦ err (config "custom cursor: advance() must return { cursor, done: boolean }")
        | some next ↦ ok (record { cursor = next.0; done = next.1; items = input.items })
      ]

  abbrev pub reached : C → C → Bool
  reached cursor target = cfg.serialize cursor == cfg.serialize target

  abbrev pub from_raw : Option String → Result C
  from_raw none = ok cfg.initial
  from_raw (some raw) = cfg.deserialize raw

-- A full scan has no cursor; pages go on while there are more.
abbrev pub snapshot_advance : AdvanceInput → AdvanceResult (Unit {0})
snapshot_advance input = record {
  cursor = tt;
  done = not (is_more input.has_more);
  items = input.items;
}
