-- ===== src/Cursor/Page.antt =====
-- src/cursor/page.ts: page numbers.
use watukuy.Base.{ℕ, ◌+◌, Option, or_else, if◌then◌else◌, nat_eqb, Bool, true, false}
use watukuy.Cursor.Timestamp.{AdvanceInput, AdvanceResult, is_more}

pub record PageCursorConfig : Type 0 where
  pub initial : Option ℕ

pub record PageCursor : Type 0 where
  pub page : ℕ

abbrev pub initial : PageCursorConfig → PageCursor
initial cfg = record { page = or_else cfg.initial 1 }

abbrev pub advance : PageCursor → AdvanceInput → AdvanceResult PageCursor
advance cursor input =
    if is_more input.has_more
    then record { cursor = record { page = cursor.page + 1 }; done = false; items = input.items }
    else record { cursor = cursor; done = true; items = input.items }

abbrev pub on_cycle_complete : PageCursorConfig → PageCursor → PageCursor
on_cycle_complete cfg cursor = initial cfg

abbrev pub reached : PageCursor → PageCursor → Bool
reached cursor target = nat_eqb cursor.page target.page
