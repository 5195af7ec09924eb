-- ===== src/Runner/FiledLoop.antt =====
-- src/core/runner.ts: the loop over the pages of a cycle keeps each row of the outbox filed under the id of
-- its event, so that every drain in it ends.
use watukuy.Base.{
  ◌-◌, or_else, ℕ, zero, suc, ◌+◌, Bool, true, false, Option, none, some, ◌≡◌, ap, subst,
}
use watukuy.Types.{pkey_eq, Lane, LaneCursor, Result, ok, err}
use watukuy.Runner.Cycle.{Pull, page, exhausted, broken, Strategy, Api, CycleDeps, Cycle}
use watukuy.Runner.Pages.{
  Flow, go_on, leave_call, leave_loop, Place, between, calling, placed, pulled, begun, begin_if,
  begin_call, step_loop, went_on, page_loop,
}
use watukuy.Runner.Filing.{Filed, KeepsFiled, take_page-Filed}

module _ {W C : Type 0} (api : Api W C) (strategy : Strategy C) (deps : CycleDeps)
    (lane : Lane) where
  -- A turn of the loop.
  placed-Filed :
      (from : C) (n : ℕ) (r : Result Flow × Cycle W C)
      → Filed api strategy deps lane r.1
      → Filed api strategy deps lane (placed api strategy deps lane from n r).1
  placed-Filed from n (err thrown, c) h = h
  placed-Filed from n (ok go_on, c) h = h
  placed-Filed from n (ok leave_call, c) h = h
  placed-Filed from n (ok leave_loop, c) h = h

  pulled-Filed :
      (before : LaneCursor) (force : Bool) (target : Option C) (from : C) (n : ℕ) (c : Cycle W C)
      (answer : Pull)
      → Filed api strategy deps lane c
      → Filed api strategy deps lane
          (pulled api strategy deps lane before force target from n c answer).1
  pulled-Filed before force target from n c (page p) h =
      placed-Filed from (n + 1) _ (take_page-Filed api strategy deps lane before force target p c h)
  pulled-Filed before force target from n c exhausted h = h
  pulled-Filed before force target from n c (broken thrown) h = h

  begun-Filed :
      (c : Cycle W C) (r : Result C)
      → Filed api strategy deps lane c
      → Filed api strategy deps lane (begun api strategy deps lane c r).1
  begun-Filed c (err thrown) h = h
  begun-Filed c (ok from) h = h

  begin_if-Filed :
      (done stop full : Bool)
      → KeepsFiled api strategy deps lane (begin_if api strategy deps lane done stop full)
  unfolding begin_if
  begin_if-Filed true stop full c h = h
  begin_if-Filed false true full c h = h
  begin_if-Filed false false true c h = h
  begin_if-Filed false false false c h = begun-Filed c _ h

  step_loop-Filed :
      (before : LaneCursor) (force : Bool) (target : Option C) (place : Place C)
      → KeepsFiled api strategy deps lane
          (step_loop api strategy deps lane before force target place)
  unfolding step_loop begin_call
  step_loop-Filed before force target between c h = begin_if-Filed _ _ _ c h
  step_loop-Filed before force target (calling from n) c h =
      let (answer, world) = api.fetch lane from (c.pages + 1 - n) n c.world in
      pulled-Filed before force target from n (record c { world = world }) answer h

  abbrev AllFiled : Option (Result (Unit {0}) × Cycle W C) → Type 0
  AllFiled o = (r : Result (Unit {0}) × Cycle W C) → o ≡ some r → Filed api strategy deps lane r.1

  some_inj : {r q : Result (Unit {0}) × Cycle W C} → some r ≡ some q → r ≡ q
  some_inj {r} {q} e = ap (λ (o : Option (Result (Unit {0}) × Cycle W C)). or_else o r) e

  just-Filed :
      (r : Result (Unit {0}) × Cycle W C) → Filed api strategy deps lane r.1 → AllFiled (some r)
  just-Filed r h q e =
      subst (λ (x : Result (Unit {0}) × Cycle W C). Filed api strategy deps lane x.1) (some_inj e) h

  went_on-Filed :
      (s : Result (Option (Place C)) × Cycle W C)
      (more : Place C → Cycle W C → Option (Result (Unit {0}) × Cycle W C))
      → Filed api strategy deps lane s.1
      → ((place : Place C) (c : Cycle W C)
          → Filed api strategy deps lane c
          → AllFiled (more place c))
      → AllFiled (went_on api strategy deps lane s more)
  went_on-Filed (err thrown, c) more h f = just-Filed (err thrown, c) h
  went_on-Filed (ok none, c) more h f = just-Filed (ok tt, c) h
  went_on-Filed (ok (some place), c) more h f = f place c h

  pub page_loop-Filed :
      (before : LaneCursor) (force : Bool) (target : Option C) (fuel : ℕ) (place : Place C)
      (c : Cycle W C)
      → Filed api strategy deps lane c
      → AllFiled (page_loop api strategy deps lane before force target fuel place c)
  unfolding page_loop
  page_loop-Filed before force target zero place c h = λ r e. absurd (cc e)
  page_loop-Filed before force target (suc fuel) place c h =
      went_on-Filed (step_loop api strategy deps lane before force target place c)
        (page_loop api strategy deps lane before force target fuel)
        (step_loop-Filed before force target place c h) (page_loop-Filed before force target fuel)
