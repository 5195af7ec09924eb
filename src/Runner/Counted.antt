-- ===== src/Runner/Counted.antt =====
-- src/core/runner.ts: the count of pages in a cycle, which a page that is taken raises by one.
use watukuy.Base.{
  ℕ, ◌+◌, ◌<◌, Bool, true, false, ◌||◌, Option, none, some, List, [], ◌∷◌, ◌≡◌, refl, ◌∙◌, arith,
  Bool-cases, inl, inr, leb,
}
use watukuy.Types.{Lane, LaneCursor, OutboxRow, Result, ok, err}
use watukuy.Cursor.Timestamp.{AdvanceResult}
use watukuy.Store.{MemoryStore, commit_poll, save_state}
use watukuy.Runner.Halt.{halt_schedule}
use watukuy.Dispatcher.{DrainResult, Drain}
use watukuy.Runner.Calls.{M, after}
use watukuy.Runner.Page.{PageCommit}
use watukuy.Runner.Cycle.{
  Page, Strategy, Api, CycleDeps, Cycle, written, page_cap, is_aborted, past_deadline, now_of,
  rescheduled, no_patch, drain, drained, open_circuit_for_halt, renew_now,
}
use watukuy.Runner.Pages.{
  advance_page, process_items, advanced, check_target, commit_page, Flow, go_on, leave_call,
  leave_loop, after_halt, halting, after_drain, deliver_events, decide, after_delivery, take_page,
  noted, arrived, decided, page_batch, committed, deliver_page, store_page, settle_page, read_page,
  one_page_more,
}

-- The call leaves `g` of the variables as it was, whether it throws or not.
abbrev Keeps : {S A : Type 0} → (S → ℕ) → M S A → Type 0
Keeps {S} g m = (s : S) → g (m s).1 ≡ g s

module _ {S A B : Type 0} (g : S → ℕ) where
  after-Keeps :
      (r : Result A × S) (k : A → M S B) → ((a : A) → Keeps g (k a)) → g (after r k).1 ≡ g r.1
  after-Keeps (err thrown, s) k h = refl
  after-Keeps (ok a, s) k h = h a s

module _ {W C : Type 0} (api : Api W C) (strategy : Strategy C) (deps : CycleDeps)
    (lane : Lane) where
  abbrev pages_of : Cycle W C → ℕ
  pages_of c = c.pages

  abbrev KeepsPages : {A : Type 0} → M (Cycle W C) A → Type 0
  KeepsPages m = Keeps pages_of m

  written-pages :
      (c : Cycle W C) (f : Cycle W C → Cycle W C)
      → ((e : Cycle W C) → (f e).pages ≡ e.pages)
      → (r : Result (Unit {0}) × MemoryStore) → (written c f r).1.pages ≡ c.pages
  written-pages c f h (err thrown, s) = refl
  written-pages c f h (ok u, s) = h (record c { store = s })

  process_items-pages :
      (force : Bool) (adv : AdvanceResult C)
      → KeepsPages (process_items api strategy deps lane force adv)
  unfolding process_items
  process_items-pages force adv c = by_result _
    where
      by_result :
          (r : Result PageCommit) → (noted api strategy deps lane adv.items c r).1.pages ≡ c.pages
      by_result (err thrown) = refl
      by_result (ok commit) = refl

  check_target-pages : (target : Option C) → KeepsPages (check_target api strategy deps lane target)
  unfolding check_target
  check_target-pages none c = refl
  check_target-pages (some target) c = by_result (strategy.reached c.cursor target)
    where
      by_result : (r : Result Bool) → (arrived api strategy deps lane c r).1.pages ≡ c.pages
      by_result (err thrown) = refl
      by_result (ok there) = refl

  commit_page-pages :
      (before : LaneCursor) (force : Bool) (commit : PageCommit)
      → KeepsPages (commit_page api strategy deps lane before force commit)
  unfolding commit_page
  commit_page-pages before force commit c =
      let batch = page_batch api strategy deps lane before force commit c in
      written-pages c
        (committed api strategy deps lane batch c.sequence (now_of api strategy deps lane c))
        (λ e. refl) (commit_poll c.store deps.page.key deps.lease batch)

  open_circuit_for_halt-pages : KeepsPages (open_circuit_for_halt api strategy deps lane)
  unfolding open_circuit_for_halt
  open_circuit_for_halt-pages c =
      let now = now_of api strategy deps lane c in
      let schedule = halt_schedule c.state.schedule deps.page.poller.circuit now in
      written-pages c (rescheduled api strategy deps lane schedule now) (λ e. refl)
        (save_state c.store deps.page.key deps.lease
          (record no_patch { schedule = some schedule; updated_at = some now }))

  drain-pages : KeepsPages (drain api strategy deps lane)
  unfolding drain
  drain-pages c = by_drain _
    where
      by_drain :
          (o : Option (Result DrainResult × Drain W))
          → (drained api strategy deps lane c o).1.pages ≡ c.pages
      by_drain none = refl
      by_drain (some (r, d)) = refl

  after_halt-pages : (halted : Bool) → KeepsPages (after_halt api strategy deps lane halted)
  unfolding after_halt
  after_halt-pages true c =
      after-Keeps pages_of (open_circuit_for_halt api strategy deps lane c)
        (λ _ (e : Cycle W C). (ok true, halting api strategy deps lane e)) (λ a e. refl)
      ∙ open_circuit_for_halt-pages c
  after_halt-pages false c = refl

  after_drain-pages : (d : DrainResult) → KeepsPages (after_drain api strategy deps lane d)
  unfolding after_drain
  after_drain-pages d c = after_halt-pages d.halted (record c { last_drain = some d })

  deliver_events-pages :
      (rows : List OutboxRow) → KeepsPages (deliver_events api strategy deps lane rows)
  unfolding deliver_events
  deliver_events-pages [] c = refl
  deliver_events-pages (row ∷ rows) c =
      after-Keeps pages_of (drain api strategy deps lane c) (after_drain api strategy deps lane)
        after_drain-pages
      ∙ drain-pages c

  renew_now-pages : KeepsPages (renew_now api strategy deps lane)
  unfolding renew_now
  renew_now-pages c = ground arith

  -- A page was taken: the count of pages says so, and the call goes on only below the cap.
  abbrev pub Below : Result Flow × Cycle W C → Type 0
  Below (ok go_on, c) = c.pages < page_cap api strategy deps lane
  Below (ok leave_call, c) = Unit
  Below (ok leave_loop, c) = Unit
  Below (err thrown, c) = Unit

  abbrev pub Taken : ℕ → Result Flow × Cycle W C → Type 0
  Taken n r = (r.1.pages ≡ n) × Below r

  -- A part of the call that keeps the count, before one that ends as told.
  then-Taken :
      {A : Type 0} (n : ℕ) (r : Result A × Cycle W C) (k : A → M (Cycle W C) Flow)
      → r.1.pages ≡ n
      → ((a : A) (c : Cycle W C) → c.pages ≡ n → Taken n (k a c))
      → Taken n (after r k)
  then-Taken n (err thrown, c) k e h = (e, tt)
  then-Taken n (ok a, c) k e h = h a c e

  decide-Taken :
      (n : ℕ) (c : Cycle W C)
      → c.pages ≡ n
      → Taken n (decided api strategy deps lane (decide api strategy deps lane c))
  unfolding decide
  decide-Taken n c e = elim (Bool-cases (c.done || is_aborted api strategy deps lane c)) [
    | inl t ↦ rw t (e, tt)
    | inr f ↦
        rw f
          (elim (Bool-cases (
            past_deadline api strategy deps lane c
            || leb (page_cap api strategy deps lane) c.pages)) [
              | inl t ↦ rw t (e, tt)
              | inr g ↦ rw g (e, ground (arith, g))
            ])
  ]

  after_delivery-Taken :
      (n : ℕ) (halt : Bool) (c : Cycle W C)
      → c.pages ≡ n
      → Taken n (after_delivery api strategy deps lane halt c)
  unfolding after_delivery
  after_delivery-Taken n true c e = (e, tt)
  after_delivery-Taken n false c e =
      then-Taken n (renew_now api strategy deps lane c)
        (λ _ (e : Cycle W C). decided api strategy deps lane (decide api strategy deps lane e))
        (renew_now-pages c ∙ e) (λ a d. decide-Taken n d)

  deliver_page-Taken :
      (n : ℕ) (commit : PageCommit) (c : Cycle W C)
      → c.pages ≡ n
      → Taken n (deliver_page api strategy deps lane commit c)
  unfolding deliver_page
  deliver_page-Taken n commit c e =
      then-Taken n (deliver_events api strategy deps lane commit.events c)
        (after_delivery api strategy deps lane) (deliver_events-pages commit.events c ∙ e)
        (after_delivery-Taken n)

  store_page-Taken :
      (n : ℕ) (before : LaneCursor) (force : Bool) (commit : PageCommit) (c : Cycle W C)
      → c.pages ≡ n
      → Taken n (store_page api strategy deps lane before force commit c)
  unfolding store_page
  store_page-Taken n before force commit c e =
      then-Taken n (commit_page api strategy deps lane before force commit c)
        (λ _. deliver_page api strategy deps lane commit)
        (commit_page-pages before force commit c ∙ e) (λ _. deliver_page-Taken n commit)

  settle_page-Taken :
      (n : ℕ) (before : LaneCursor) (force : Bool) (target : Option C) (adv : AdvanceResult C)
      (commit : PageCommit) (c : Cycle W C)
      → c.pages ≡ n
      → Taken n (settle_page api strategy deps lane before force target adv commit c)
  unfolding settle_page
  settle_page-Taken n before force target adv commit c e =
      let d = advanced api strategy deps lane adv commit c in
      then-Taken n (check_target api strategy deps lane target d)
        (λ _. store_page api strategy deps lane before force commit)
        (check_target-pages target d ∙ e) (λ _. store_page-Taken n before force commit)

  read_page-Taken :
      (n : ℕ) (before : LaneCursor) (force : Bool) (target : Option C) (adv : AdvanceResult C)
      (c : Cycle W C)
      → c.pages ≡ n
      → Taken n (read_page api strategy deps lane before force target adv c)
  unfolding read_page
  read_page-Taken n before force target adv c e =
      then-Taken n (process_items api strategy deps lane force adv c)
        (settle_page api strategy deps lane before force target adv)
        (process_items-pages force adv c ∙ e) (settle_page-Taken n before force target adv)

  pub take_page-Taken :
      (before : LaneCursor) (force : Bool) (target : Option C) (p : Page) (c : Cycle W C)
      → Taken (c.pages + 1) (take_page api strategy deps lane before force target p c)
  unfolding take_page advance_page
  take_page-Taken before force target p c =
      let d = one_page_more api strategy deps lane c in
      then-Taken (c.pages + 1) (advance_page api strategy deps lane p d)
        (read_page api strategy deps lane before force target) refl
        (read_page-Taken (c.pages + 1) before force target)
