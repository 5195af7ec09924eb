-- ===== src/Runner/Endings.antt =====
-- src/core/runner.ts: the loop over the pages of a cycle ends.
use watukuy.Base.{
  ℕ, zero, suc, ◌+◌, ◌-◌, ◌*◌, ◌<◌, Bool, true, false, Option, none, some, ◌≡◌, ◌⊎◌, refl, ap,
  arith, Bool-cases, inl, inr, nat_eqb, if◌then◌else◌,
}
use watukuy.Types.{Lane, LaneCursor, Result, ok, err}
use watukuy.Runner.Cycle.{
  Pull, page, exhausted, broken, Strategy, Api, CycleDeps, Cycle, page_cap, is_aborted,
}
use watukuy.Runner.Pages.{
  Flow, go_on, leave_call, leave_loop, Place, between, calling, call_ended, placed, pulled, begun,
  begin_if, begin_call, step_loop, went_on, page_loop, loop_fuel,
}
use watukuy.Runner.Counted.{Taken, take_page-Taken}

module _ {W C : Type 0} (api : Api W C) (strategy : Strategy C) (deps : CycleDeps)
    (lane : Lane) where
  -- The turns that are left: three for each page below the cap.
  abbrev left : Place C → Cycle W C → ℕ
  left between c = 3 * (page_cap api strategy deps lane - c.pages) + 2
  left (calling from n) c =
      3 * (page_cap api strategy deps lane - c.pages) + (if nat_eqb n 0 then 1 else 3)

  -- Inside a call the cap is not reached; a turn that goes on has fewer left, or the cycle is done.
  abbrev Open : Place C → Cycle W C → Type 0
  Open between c = Unit
  Open (calling from n) c = c.pages < page_cap api strategy deps lane

  abbrev Nearer : ℕ → Result (Option (Place C)) × Cycle W C → Type 0
  Nearer m (err thrown, c) = Unit
  Nearer m (ok none, c) = Unit
  Nearer m (ok (some between), c) = (c.done ≡ true) ⊎ (left between c < m)
  Nearer m (ok (some (calling from n)), c) = (left (calling from n) c < m) × Open (calling from n) c

  begun-Nearer :
      (c : Cycle W C) (r : Result C)
      → c.pages < page_cap api strategy deps lane
      → Nearer (left between c) (begun api strategy deps lane c r)
  begun-Nearer c (err thrown) l = tt
  begun-Nearer c (ok from) l = (omega arith, l)

  begin_if-Nearer :
      (done stop full : Bool) (c : Cycle W C)
      → (full ≡ false → c.pages < page_cap api strategy deps lane)
      → Nearer (left between c) (begin_if api strategy deps lane done stop full c)
  unfolding begin_if
  begin_if-Nearer true stop full c l = tt
  begin_if-Nearer false true full c l = tt
  begin_if-Nearer false false true c l = tt
  begin_if-Nearer false false false c l = begun-Nearer c _ (l refl)

  begin_call-Nearer :
      (c : Cycle W C) → Nearer (left between c) (begin_call api strategy deps lane c)
  unfolding begin_call
  begin_call-Nearer c =
      begin_if-Nearer c.done (is_aborted api strategy deps lane c) _ c (λ f. ground (arith, f))

  placed-Nearer :
      (from : C) (n : ℕ) (c : Cycle W C) (r : Result Flow × Cycle W C)
      → c.pages < page_cap api strategy deps lane
      → Taken api strategy deps lane (c.pages + 1) r
      → Nearer (left (calling from n) c) (placed api strategy deps lane from (n + 1) r)
  placed-Nearer from n c (err thrown, e) l t = tt
  placed-Nearer from n c (ok go_on, e) l t = (ground (arith, t.0), t.1)
  placed-Nearer from n c (ok leave_call, e) l t = inr (ground (arith, t.0))
  placed-Nearer from n c (ok leave_loop, e) l t = tt

  call_ended-Nearer :
      (from : C) (n : ℕ) (c : Cycle W C)
      → Nearer (left (calling from n) c) (ok (some between), call_ended api strategy deps lane n c)
  call_ended-Nearer from n c = elim (Bool-cases (nat_eqb n 1)) [
    | inl t ↦ inr (ground (arith, t))
    | inr f ↦ inl (rw f (ground arith))
  ]

  pulled-Nearer :
      (before : LaneCursor) (force : Bool) (target : Option C) (from : C) (n : ℕ) (c : Cycle W C)
      (answer : Pull)
      → c.pages < page_cap api strategy deps lane
      → Nearer
          (left (calling from n) c)
          (pulled api strategy deps lane before force target from n c answer)
  pulled-Nearer before force target from n c (page p) l =
      placed-Nearer from n c _ l (take_page-Taken api strategy deps lane before force target p c)
  pulled-Nearer before force target from n c exhausted l = call_ended-Nearer from n c
  pulled-Nearer before force target from n c (broken thrown) l = tt

  step_loop-Nearer :
      (before : LaneCursor) (force : Bool) (target : Option C) (place : Place C) (c : Cycle W C)
      → Open place c
      → Nearer (left place c) (step_loop api strategy deps lane before force target place c)
  unfolding step_loop
  step_loop-Nearer before force target between c o = begin_call-Nearer c
  step_loop-Nearer before force target (calling from n) c o =
      let (answer, world) = api.fetch lane from (c.pages + 1 - n) n c.world in
      pulled-Nearer before force target from n (record c { world = world }) answer o

  -- Fuel that is enough: more than the turns that are left, or any where the cycle is done.
  abbrev Enough : ℕ → Place C → Cycle W C → Type 0
  Enough fuel between c = ((c.done ≡ true) × (0 < fuel)) ⊎ (left between c < fuel)
  Enough fuel (calling from n) c = left (calling from n) c < fuel

  abbrev Returns : Option (Result (Unit {0}) × Cycle W C) → Type 0
  Returns o = (r : Result (Unit {0}) × Cycle W C) × (o ≡ some r)

  module _ (before : LaneCursor) (force : Bool) (target : Option C) where
    abbrev loop : ℕ → Place C → Cycle W C → Option (Result (Unit {0}) × Cycle W C)
    loop = page_loop api strategy deps lane before force target

    went_on-Returns :
        (fuel m : ℕ) (r : Result (Option (Place C)) × Cycle W C)
        → ((place : Place C) (c : Cycle W C)
            → Open place c
            → Enough fuel place c
            → Returns (loop fuel place c))
        → Nearer m r
        → m < suc fuel
        → 0 < m
        → Returns (went_on api strategy deps lane r (loop fuel))
    went_on-Returns fuel m (err thrown, c) ih h l p = ((err thrown, c), refl)
    went_on-Returns fuel m (ok none, c) ih h l p = ((ok tt, c), refl)
    went_on-Returns fuel m (ok (some between), c) ih (inl d) l p =
        ih between c tt (inl (d, omega (arith, l, p)))
    went_on-Returns fuel m (ok (some between), c) ih (inr n) l p =
        ih between c tt (inr (omega (arith, l, n)))
    went_on-Returns fuel m (ok (some (calling from n)), c) ih h l p =
        ih (calling from n) c h.1 (omega (arith, l, h.0))

    -- A cycle that is done leaves the loop.
    done_ends :
        (done stop full : Bool) (c : Cycle W C)
        → done ≡ true
        → begin_if api strategy deps lane done stop full c ≡ (ok none, c)
    unfolding begin_if
    done_ends true stop full c d = refl
    done_ends false stop full c d = absurd (cc d)

    page_loop-Enough :
        (fuel : ℕ) (place : Place C) (c : Cycle W C)
        → Open place c
        → Enough fuel place c
        → Returns (loop fuel place c)
    unfolding page_loop step_loop begin_call
    page_loop-Enough zero between c o (inl d) = absurd (omega (arith, d.1))
    page_loop-Enough zero between c o (inr l) = absurd (omega (arith, l))
    page_loop-Enough zero (calling from n) c o l = absurd (omega (arith, l))
    page_loop-Enough (suc fuel) between c o (inl d) = (
      (ok tt, c),
      ap
          (λ (r : Result (Option (Place C)) × Cycle W C).
            went_on api strategy deps lane r (loop fuel))
          (done_ends c.done _ _ c d.0),
    )
    page_loop-Enough (suc fuel) between c o (inr l) =
        went_on-Returns fuel (left between c) _ (page_loop-Enough fuel)
          (step_loop-Nearer before force target between c o) l (omega arith)
    page_loop-Enough (suc fuel) (calling from n) c o l =
        went_on-Returns fuel (left (calling from n) c) _ (page_loop-Enough fuel)
          (step_loop-Nearer before force target (calling from n) c o) l (ground arith)

    -- The loop over the pages of a cycle ends, whatever the API answers, as far as its drains do: an API
    -- whose pages never end is cut off at the cap, the configured one or that of a full scan.
    pub page_loop-Returns :
        (c : Cycle W C)
        → (r : Result (Unit {0}) × Cycle W C) × (page_loop api strategy deps lane before force
              target
              (loop_fuel api strategy deps lane)
              between
              c
            ≡ some r)
    unfolding loop_fuel
    page_loop-Returns c =
        page_loop-Enough (3 * page_cap api strategy deps lane + 3) between c tt (inr (omega arith))
