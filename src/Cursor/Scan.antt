-- ===== src/Cursor/Scan.antt =====
-- src/cursor/timestamp.ts: the scan of a page for its watermark.
use watukuy.Base.{
  ℕ, ◌+◌, ◌≤◌, String, true, false, Option, none, some, List, [], ◌∷◌, arith, ◌≡◌, refl, subst, All,
  In, inl, inr, ◌⊎◌, Bool-cases, or_else,
}
use watukuy.Types.{Value, Number}
use watukuy.Cursor.Timestamp.{
  TimestampCursorConfig, Mark, try_parse_timestamp, stamp, raise, is_fresh, scan_one, scan,
}

-- A time is not after a mark; a known watermark is not before the one that it replaces.
abbrev pub AtMost : ℕ → Option ℕ → Type 0
AtMost ms none = ⊥
AtMost ms (some limit) = ms ≤ limit

abbrev pub NotBefore : Option ℕ → Option ℕ → Type 0
NotBefore none new = Unit
NotBefore (some old) new = AtMost old new

pub AtMost-le : (a b : ℕ) (o : Option ℕ) → a ≤ b → AtMost b o → AtMost a o
AtMost-le a b none h k = k
AtMost-le a b (some c) h k = omega (arith, h, k)

abbrev pub mark_ms : Option Mark → Option ℕ
mark_ms none = none
mark_ms (some m) = some m.ms

module _ (date_parse : String → Option ℕ) (iso : Number → String)
    (cfg : TimestampCursorConfig) where
  -- A mark is a text of the page with its time, and that time is not fresh.
  unfoldable pub IsMark : ℕ → Option Mark → Type 0
  IsMark now none = Unit
  IsMark now (some m) =
      (try_parse_timestamp date_parse iso cfg m.raw ≡ some m.ms) × (m.ms + or_else cfg.lag 0 ≤ now)

  pub stamp-parse :
      (item : Value) (raw : String) (ms : ℕ)
      → stamp date_parse iso cfg item ≡ some (raw, ms)
      → try_parse_timestamp date_parse iso cfg raw ≡ some ms
  unfolding stamp
  stamp-parse item raw ms h = ground (arith, h)

  pub raise-AtMost :
      (item : Value) (raw : String) (ms : ℕ) (mark : Option Mark)
      → (ms ≤ (raise date_parse iso cfg item raw ms mark).ms)
        × NotBefore (mark_ms mark) (some (raise date_parse iso cfg item raw ms mark).ms)
  unfolding raise
  raise-AtMost item raw ms none = (omega arith, tt)
  raise-AtMost item raw ms (some m) = (ground arith, ground arith)

  pub raise-IsMark :
      (now : ℕ) (item : Value) (raw : String) (ms : ℕ) (mark : Option Mark)
      → try_parse_timestamp date_parse iso cfg raw ≡ some ms
      → is_fresh date_parse iso cfg now ms ≡ false
      → IsMark now mark
      → IsMark now (some (raise date_parse iso cfg item raw ms mark))
  unfolding raise IsMark
  raise-IsMark now item raw ms none p f h = (p, ground arith)
  raise-IsMark now item raw ms (some m) p f h = (ground (arith, p, h.0), ground (arith, f, h.1))

  abbrev pub scanned : ℕ → List Value → Option Mark → List Value × Option Mark
  scanned = scan date_parse iso cfg

  abbrev pub Dated : Option ℕ → Value → Type 0
  Dated limit item =
      (raw : String) (ms : ℕ) → stamp date_parse iso cfg item ≡ some (raw, ms) → AtMost ms limit

  abbrev pub Fresh : ℕ → Value → Type 0
  Fresh now item =
      (raw : String) × (ms : ℕ) × (stamp date_parse iso cfg item ≡ some (raw, ms))
      × (is_fresh date_parse iso cfg now ms ≡ true)

  pub record Scanned (now : ℕ) (items : List Value) (mark : Option Mark)
      (r : List Value × Option Mark) : Type 0 where
    pub is_mark : IsMark now r.1
    pub grows : NotBefore (mark_ms mark) (mark_ms r.1)
    pub covers : All (Dated (mark_ms r.1)) r.0
    pub keeps : (item : Value) → In item items → In item r.0 ⊎ Fresh now item

  pub NotBefore-trans :
      (a : Option ℕ) (b : ℕ) (c : Option ℕ) → NotBefore a (some b) → AtMost b c → NotBefore a c
  NotBefore-trans none b c p q = tt
  NotBefore-trans (some a) b none p q = q
  NotBefore-trans (some a) b (some c) p q = omega (arith, p, q)

  pub keep_head :
      (now : ℕ) (item : Value) (items kept : List Value)
      → ((x : Value) → In x items → In x kept ⊎ Fresh now x)
      → (x : Value) → In x (item ∷ items)
      → In x (item ∷ kept) ⊎ Fresh now x
  keep_head now item items kept k x (inl e) = inl (inl e)
  keep_head now item items kept k x (inr n) = elim (k x n) [ inl u ↦ inl (inr u) | inr u ↦ inr u ]

  pub one_lem :
      (now : ℕ) (item : Value) (items : List Value) (mark : Option Mark) (o : Option (String × ℕ))
      → stamp date_parse iso cfg item ≡ o
      → IsMark now mark
      → ((m : Option Mark) → IsMark now m → Scanned now items m (scanned now items m))
      → Scanned now
          (item ∷ items)
          mark
          (scan_one date_parse iso cfg now item o (scanned now items) mark)
  unfolding scan_one
  one_lem now item items mark none p h ih = record {
    is_mark = s.is_mark;
    grows = s.grows;
    covers = (λ raw ms q. absurd (cc (p, q)), s.covers);
    keeps = keep_head now item items (scanned now items mark).0 s.keeps;
  }
    where
      s : Scanned now items mark (scanned now items mark)
      s = ih mark h
  one_lem now item items mark (some (raw, ms)) p h ih =
      elim (Bool-cases (is_fresh date_parse iso cfg now ms)) [
        | inl f ↦ rw f (fresh f (ih mark h))
        | inr f ↦ rw f (
            dated f (
              ih (some (raise date_parse iso cfg item raw ms mark))
                (raise-IsMark now item raw ms mark (stamp-parse item raw ms p) f h)))
      ]
    where
      fresh :
          is_fresh date_parse iso cfg now ms ≡ true
          → Scanned now items mark (scanned now items mark)
          → Scanned now (item ∷ items) mark (scanned now items mark)
      fresh f s = record {
        is_mark = s.is_mark;
        grows = s.grows;
        covers = s.covers;
        keeps = λ x n. elim n [
          | inl e ↦ inr (subst (Fresh now) e (raw, ms, p, f))
          | inr k ↦ s.keeps x k
        ];
      }

      later : Mark
      later = raise date_parse iso cfg item raw ms mark

      dated :
          is_fresh date_parse iso cfg now ms ≡ false
          → Scanned now items (some later) (scanned now items (some later))
          → Scanned now
              (item ∷ items)
              mark
              (item ∷ (scanned now items (some later)).0, (scanned now items (some later)).1)
      dated f t = record {
        is_mark = t.is_mark;
        grows = NotBefore-trans (mark_ms mark) later.ms _ (raise-AtMost item raw ms mark).1 t.grows;
        covers = (
          λ raw' ms' q.
              AtMost-le ms' later.ms _ (ground (arith, p, q, (raise-AtMost item raw ms mark).0))
                t.grows,
          t.covers,
        );
        keeps = keep_head now item items (scanned now items (some later)).0 t.keeps;
      }

  pub NotBefore-refl : (o : Option ℕ) → NotBefore o o
  NotBefore-refl none = tt
  NotBefore-refl (some a) = omega arith

  pub scan_lem :
      (now : ℕ) (items : List Value) (mark : Option Mark)
      → IsMark now mark
      → Scanned now items mark (scanned now items mark)
  unfolding scan
  scan_lem now [] mark h = record {
    is_mark = h;
    grows = NotBefore-refl (mark_ms mark);
    covers = tt;
    keeps = λ item n. absurd n;
  }
  scan_lem now (item ∷ items) mark h =
      one_lem now item items mark (stamp date_parse iso cfg item) refl h
        (λ m k. scan_lem now items m k)
