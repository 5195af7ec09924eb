-- ===== src/Cursor/Watermark.antt =====
-- src/cursor/timestamp.ts: `advance` never moves the watermark back and skips no item.
use watukuy.Base.{
  ℕ, ◌+◌, ◌≤◌, String, Bool, Option, none, some, List, [], ◌∷◌, arith, ◌≡◌, refl, sym, ap, ◌∙◌, All,
  All-map, In, not, inl, inr, ◌⊎◌, Bool-cases, nat_eqb, ltb, or_else, length, if◌then◌else◌,
}
use watukuy.Types.{Value, Number, ok}
use watukuy.Cursor.Timestamp.{
  TimestampCursorConfig, TimestampCursor, AdvanceInput, AdvanceResult, Mark, try_parse_timestamp,
  parse_timestamp, stamp, raise, is_fresh, scan_one, scan, move, finish, time_of, is_more, advance,
}
use watukuy.Cursor.Scan.{
  AtMost, NotBefore, AtMost-le, IsMark, scanned, Dated, Fresh, Scanned, NotBefore-refl, scan_lem,
}

module _ (date_parse : String → Option ℕ) (iso : Number → String)
    (cfg : TimestampCursorConfig) where
  -- The watermark after a page.
  pub record Advanced (cursor : TimestampCursor) (input : AdvanceInput) (old : Option ℕ)
      (r : AdvanceResult TimestampCursor) (new : Option ℕ) : Type 0 where
    pub known : time_of date_parse iso cfg r.cursor ≡ ok new
    pub not_before : NotBefore old new
    pub settled : (new ≡ old) ⊎ ((ms : ℕ) × (new ≡ some ms) × (ms + or_else cfg.lag 0 ≤ input.now))
    pub covers : All (Dated date_parse iso cfg new) r.items
    pub keeps :
        (item : Value)
        → In item input.items
        → In item r.items ⊎ Fresh date_parse iso cfg input.now item

  raw_time :
      (raw : String) (ms : ℕ) (tie : Option String)
      → try_parse_timestamp date_parse iso cfg raw ≡ some ms
      → time_of date_parse iso cfg (record { value = some raw; tie_break = tie }) ≡ ok (some ms)
  unfolding time_of parse_timestamp
  raw_time raw ms tie h = ground (arith, h)

  same_time :
      (c d : TimestampCursor)
      → c.value ≡ d.value
      → time_of date_parse iso cfg c ≡ time_of date_parse iso cfg d
  unfolding time_of
  same_time c d h = rw h refl

  move_lem :
      (cursor : TimestampCursor) (old : Option ℕ) (now : ℕ) (m : Mark)
      → time_of date_parse iso cfg cursor ≡ ok old
      → IsMark date_parse iso cfg now (some m)
      → (new : Option ℕ) × (time_of date_parse iso cfg (move date_parse iso cfg cursor old m)
          ≡ ok new)
        × NotBefore old new
        × AtMost m.ms new
        × ((new ≡ old) ⊎ ((ms : ℕ) × (new ≡ some ms) × (ms + or_else cfg.lag 0 ≤ now)))
  unfolding move IsMark
  move_lem cursor none now m t h =
      (some m.ms, raw_time m.raw m.ms m.tie h.0, tt, omega arith, inr (m.ms, refl, h.1))
  move_lem cursor (some current) now m t h = elim (Bool-cases (ltb current m.ms)) [
    | inl l ↦ (
      some m.ms,
      rw l (raw_time m.raw m.ms m.tie h.0),
      ground arith,
      omega arith,
      inr (m.ms, refl, h.1),
    )
    | inr l ↦
        (some current, same_time _ cursor (ground arith) ∙ t, omega arith, ground arith, inl refl)
  ]

  Kept : List Value → List Value → Type 0
  Kept items kept = (length kept ≤ length items) × (length kept ≡ length items → kept ≡ items)

  Kept-one :
      (now : ℕ) (item : Value) (items : List Value) (mark : Option Mark) (o : Option (String × ℕ))
      → ((m : Option Mark) → Kept items (scanned date_parse iso cfg now items m).0)
      → Kept
          (item ∷ items)
          (scan_one date_parse iso cfg now item o (scanned date_parse iso cfg now items) mark).0
  unfolding scan_one Kept
  Kept-one now item items mark none ih =
      let k = ih mark in (omega (arith, k.0), λ e. ap (◌∷◌ item) (k.1 (omega (arith, e))))
  Kept-one now item items mark (some (raw, ms)) ih =
      elim (Bool-cases (is_fresh date_parse iso cfg now ms)) [
        | inl f ↦ rw f (omega (arith, (ih mark).0), λ e. absurd (omega (arith, e, (ih mark).0)))
        | inr f ↦
            let k = ih (some (raise date_parse iso cfg item raw ms mark)) in
            rw f (omega (arith, k.0), λ e. ap (◌∷◌ item) (k.1 (omega (arith, e))))
      ]

  Kept-scan :
      (now : ℕ) (items : List Value) (mark : Option Mark)
      → Kept items (scanned date_parse iso cfg now items mark).0
  unfolding scan Kept
  Kept-scan now [] mark = (omega arith, λ e. refl)
  Kept-scan now (item ∷ items) mark =
      Kept-one now item items mark (stamp date_parse iso cfg item) (λ m. Kept-scan now items m)

  -- The caller's list is handed back where nothing was dropped.
  handed_back :
      (now : ℕ) (items : List Value)
      → (if nat_eqb (length (scanned date_parse iso cfg now items none).0) (length items)
          then items
          else (scanned date_parse iso cfg now items none).0)
        ≡ (scanned date_parse iso cfg now items none).0
  unfolding Kept
  handed_back now items =
      elim (Bool-cases
        (nat_eqb (length (scanned date_parse iso cfg now items none).0) (length items))) [
          | inl t ↦ rw t (sym ((Kept-scan now items none).1 (ground arith)))
          | inr t ↦ rw t refl
        ]

  finish_lem :
      (cursor : TimestampCursor) (input : AdvanceInput) (old : Option ℕ) (done : Bool)
      (s : List Value × Option Mark)
      → time_of date_parse iso cfg cursor ≡ ok old
      → Scanned date_parse iso cfg input.now input.items none s
      → (r : AdvanceResult TimestampCursor) × (new : Option ℕ) × (finish date_parse iso cfg cursor
            done s.0 s.1
          ≡ ok r)
        × Advanced cursor input old r new
  unfolding finish IsMark
  finish_lem cursor input old done (kept, none) t s = (
    record { cursor = cursor; done = done; items = kept },
    old,
    refl,
    record {
      known = t;
      not_before = NotBefore-refl date_parse iso cfg old;
      settled = inl refl;
      covers = All-map (λ x d raw ms q. absurd (d raw ms q)) kept s.covers;
      keeps = s.keeps;
    },
  )
  finish_lem cursor input old done (kept, some m) t s =
      let (new, known, before, most, settled) = move_lem cursor old input.now m t s.is_mark in
      (
        record { cursor = move date_parse iso cfg cursor old m; done = done; items = kept },
        new,
        rw t refl,
        record {
          known = known;
          not_before = before;
          settled = settled;
          covers = All-map (λ x d raw ms q. AtMost-le ms m.ms new (d raw ms q) most) kept s.covers;
          keeps = s.keeps;
        },
      )

  advance-finish :
      (cursor : TimestampCursor) (input : AdvanceInput)
      → input.page_cursor ≡ none
      → advance date_parse iso cfg cursor input
        ≡ finish date_parse iso cfg cursor
            (not (is_more input.has_more))
            (scanned date_parse iso cfg input.now input.items none).0
            (scanned date_parse iso cfg input.now input.items none).1
  unfolding advance
  advance-finish cursor input p = rw p (rw (handed_back input.now input.items) refl)

  -- A page without a cursor of its own, taken at a cursor whose time is known (or not set): `advance`
  -- succeeds; the new watermark is known and not before the old one; it is the old one or lies at
  -- least `lag` in the past; no kept item is dated after it; and each item of the page is kept or
  -- newer than `now - lag`.
  pub advance_lem :
      (cursor : TimestampCursor) (input : AdvanceInput) (old : Option ℕ)
      → input.page_cursor ≡ none
      → time_of date_parse iso cfg cursor ≡ ok old
      → (r : AdvanceResult TimestampCursor) × (new : Option ℕ) × (advance date_parse iso cfg cursor
            input
          ≡ ok r)
        × Advanced cursor input old r new
  unfolding IsMark
  advance_lem cursor input old p t =
      let s = scanned date_parse iso cfg input.now input.items none in
      let (r, new, q, a) =
        finish_lem cursor input old (not (is_more input.has_more)) s t
          (scan_lem date_parse iso cfg input.now input.items none tt) in
      (r, new, advance-finish cursor input p ∙ q, a)
