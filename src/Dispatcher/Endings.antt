-- ===== src/Dispatcher/Endings.antt =====
-- src/core/dispatcher.ts: `drainOutbox` returns. A round that goes on has taken a row out of the outbox.
use watukuy.Base.{
  ℕ, zero, suc, ◌+◌, ◌*◌, ◌≤◌, ◌<◌, Bool, true, false, Option, some, String, List, [], ◌∷◌, ◌≡◌,
  refl, sym, ◌∙◌, ap, subst, arith, length, All, All-map, All-filter, inl, inr, Bool-cases,
  string_eq, ==-refl, nat_eqb,
}
use watukuy.Base.Map
use watukuy.Base.Map.{Map, has-set, entry-get}
use watukuy.Types.{serialize_error, OutboxRow, Result, ok, err, pkey_eq}
use watukuy.Store.{MemoryStore, record_of}
use watukuy.Store.Rows.{KeyRecord, holds, park_row}
use watukuy.Store.Calls.{Write, write, write_effect, acks}
use watukuy.Store.Fencing.{write-record_of}
use watukuy.Store.Queries.{load_pending}
use watukuy.Store.Queries.Pending.{load_pending_lem}
use watukuy.Dispatcher.{
  Error, Env, DispatcherDeps, Drain, DrainResult, Group, Worker, parked_row, after_parking,
  was_parked, retry_time, stopped,
}
use watukuy.Dispatcher.Groups.{group_by_ordering_key-All}
use watukuy.Dispatcher.Settle.{
  Settles, accepts, poisons, retries, loses, loses_in, outcome_of, written, parking, retrying,
}
use watukuy.Dispatcher.Turns.{Keeps, Ends, run_round-Finishes}
use watukuy.Dispatcher.Loop.{
  open_groups, Plan, finish, widen, serve, deliverable, is_exhausted, no_groups, plan_groups, plan,
  after_round, carry_out, drain_loop, drain_outbox, drain_fuel, start, report, reported,
}
use watukuy.Dispatcher.Outbox.{
  IsOutbox, Present, IsOutbox-Present, bump_attempt_lem, Since, delete-Since,
}

module _ {W : Type 0} (env : Env W) (deps : DispatcherDeps) where
  abbrev pub outbox_of : MemoryStore → Map String OutboxRow
  outbox_of s = (record_of s deps.key).outbox

  -- A write that succeeds does to the record what the store says of it.
  pub write-granted :
      (s : MemoryStore) (w : Write)
      → outcome_of env deps s w ≡ ok tt
      → (holds (record_of s deps.key) deps.lease ≡ true)
        × (record_of (write s deps.key deps.lease w).1 deps.key
            ≡ write_effect w (record_of s deps.key))
  write-granted s w h =
      let both = write-record_of s deps.key deps.key deps.lease w in
      elim (Bool-cases (holds (record_of s deps.key) deps.lease)) [
        | inl t ↦ (t, both.1 ∙ rw (==-refl deps.key, t) refl)
        | inr f ↦ absurd (ground (arith, h, f, both.0))
      ]

  granted_write :
      (s : MemoryStore) (w : Write)
      → outcome_of env deps s w ≡ ok tt
      → outbox_of (write s deps.key deps.lease w).1 ≡ (write_effect w (record_of s deps.key)).outbox
  granted_write s w h = ap (λ (r : KeyRecord). r.outbox) (write-granted s w h).1

  -- A write that is refused leaves the record as it was.
  pub refused_write :
      (s : MemoryStore) (w : Write) (thrown : Error)
      → outcome_of env deps s w ≡ err thrown
      → record_of (write s deps.key deps.lease w).1 deps.key ≡ record_of s deps.key
  refused_write s w thrown h =
      let both = write-record_of s deps.key deps.key deps.lease w in
      elim (Bool-cases (holds (record_of s deps.key) deps.lease)) [
        | inl g ↦ absurd (ground (arith, h, g, both.0))
        | inr f ↦ both.1 ∙ rw (==-refl deps.key, f) refl
      ]

  abbrev Sound : Drain W → Type 0
  Sound d = IsOutbox (outbox_of d.store)

  module _ (m : Map String OutboxRow) where
    abbrev Short : Drain W → Type 0
    Short d = Since m d.progress (outbox_of d.store)

    Settles-Short :
        (k : String) (row : OutboxRow) (rows : List OutboxRow) (d : Drain W)
        (r : Result (Option Worker) × Drain W)
        → Present m row
        → Short d
        → Settles env deps k row rows d r
        → Ends env deps (Present m) Short Sound r
    unfolding Map.delete_all park_row parked_row
    Settles-Short k row rows d _ p j (accepts world e a) =
        subst (Since m (d.progress + 1)) (sym (granted_write d.store (acks (row.event_id ∷ [])) a))
          (delete-Since m (outbox_of d.store) row.event_id d.progress j p.0)
    Settles-Short k row rows d _ p j (poisons world thrown e late a) =
        parked_short
          (was_parked env deps (written env deps world (parking env deps k row thrown world) d))
          (subst (Since m (d.progress + 1))
            (sym (granted_write d.store (parking env deps k row thrown world) a))
            (subst (λ id. Since m (d.progress + 1) (Map.delete id (outbox_of d.store))) (sym p.1)
              (delete-Since m (outbox_of d.store) row.event_id d.progress j p.0)))
      where
        parked_short : (e : Drain W) → Short e → Short (after_parking env deps k rows e).1
        parked_short e h = unfold after_parking in ground (arith, h)
    Settles-Short k row rows d _ p j (retries world thrown e early a) =
        let n =
          bump_attempt_lem row.event_id (some (serialize_error thrown))
            (some (retry_time env deps row world).0) (outbox_of d.store) j.0 in
        subst (Since m d.progress)
          (sym (granted_write d.store (retrying env deps row thrown world) a))
          (n.2, λ q. omega (arith, n.0, j.1 q), omega (arith, n.0, j.2), λ q i h. n.1 i (j.3 q i h))
    Settles-Short k row rows d _ p j (loses world thrown e) = j.0
    Settles-Short k row rows d _ p j (loses_in world thrown w x a) =
        subst (λ (rec : KeyRecord). IsOutbox rec.outbox) (sym (refused_write d.store w thrown a))
          j.0

    Short-Keeps : Keeps env deps (Present m) Short Sound
    Short-Keeps = record { settled = Settles-Short; noted = λ k at d j. j; moved = λ n d j. j }

  loaded_Present :
      (s : MemoryStore) (n : ℕ)
      → IsOutbox (outbox_of s)
      → All (Present (outbox_of s)) (load_pending s deps.key n)
  loaded_Present s n o =
      All-map (λ r h. IsOutbox-Present (outbox_of s) r o h.0) (load_pending s deps.key n)
        (load_pending_lem s deps.key n).0

  -- What holds of each row that is loaded holds of each row that a round is given.
  pub deliverable-All :
      (P : OutboxRow → Type 0) (rows : List OutboxRow) (d : Drain W)
      → All P rows
      → All (λ (g : Group). All P g.rows) (deliverable env deps rows d)
  unfolding deliverable open_groups
  deliverable-All P rows d h =
      All-filter (λ (g : Group). All P g.rows) _ _ (group_by_ordering_key-All deps.poller P rows h)

  -- The window reaches its limit after so many doublings.
  abbrev Reaches : ℕ → ℕ → Type 0
  Reaches zero window = deps.dispatch_batch_size * 16 ≤ window
  Reaches (suc n) window = Reaches n (window * 2)

  -- What an iteration that goes on has gained.
  abbrev Returns : Option (Result (Unit {0}) × Drain W) → Type 0
  Returns o = (r : Result (Unit {0}) × Drain W) × (o ≡ some r) × IsOutbox (outbox_of r.1.store)

  -- The plan of an iteration: a wider window has not reached the limit, and a round has rows that are
  -- in the outbox.
  abbrev Planned : Drain W → ℕ → Plan → Type 0
  Planned d window finish = Unit
  Planned d window widen = window < deps.dispatch_batch_size * 16
  Planned d window (serve groups) =
      All (λ (g : Group). All (Present (outbox_of d.store)) g.rows) groups

  plan_groups-Planned :
      (d : Drain W) (window : ℕ) (rows : List OutboxRow) (groups : List Group)
      → Planned d window (serve groups)
      → Planned d window (plan_groups env deps rows window groups)
  unfolding plan_groups no_groups
  plan_groups-Planned d window [] groups h = tt
  plan_groups-Planned d window (row ∷ rows) (g ∷ groups) h = h
  plan_groups-Planned d window (row ∷ rows) [] h =
      elim (Bool-cases (is_exhausted env deps (row ∷ rows) window)) [
        | inl t ↦ rw t tt
        | inr f ↦ rw f (ground (arith, f))
      ]

  plan-Planned :
      (window : ℕ) (d : Drain W)
      → IsOutbox (outbox_of d.store)
      → Planned d window (plan env deps window d)
  unfolding plan
  plan-Planned window d o = elim (Bool-cases (stopped env deps d)) [
    | inl t ↦ rw t tt
    | inr f ↦ rw f (
        plan_groups-Planned d window (load_pending d.store deps.key window) _
          (deliverable-All (Present (outbox_of d.store)) _ d (loaded_Present d.store window o)))
  ]

  -- The loop with this fuel, where the window has at most `n` doublings left.
  abbrev Loops : ℕ → Type 0
  Loops fuel =
      (n window : ℕ) (d : Drain W)
      → IsOutbox (outbox_of d.store)
      → Reaches n window
      → length (outbox_of d.store) + n < fuel
      → Returns (drain_loop env deps fuel window d)

  after_round-Returns :
      (fuel n window : ℕ) (m : Map String OutboxRow)
      → Loops fuel
      → Reaches n window
      → length m + n < suc fuel
      → (r : Result (Unit {0}) × Drain W) → Ends env deps (Present m) (Short m) Sound r
      → Returns (after_round env deps (some r) (drain_loop env deps fuel window))
  after_round-Returns fuel n window m ih w l (err lost, e) j = ((err lost, e), refl, j)
  after_round-Returns fuel n window m ih w l (ok u, e) j =
      elim (Bool-cases (nat_eqb e.progress 0)) [
        | inl t ↦ rw t ((ok tt, e), refl, j.0)
        | inr f ↦ rw f (ih n window e j.0 w (omega (arith, l, j.1 (ground (arith, f)))))
      ]

  carry_out-Returns :
      (fuel n window : ℕ) (d : Drain W) (todo : Plan)
      → Loops fuel
      → IsOutbox (outbox_of d.store)
      → Reaches n window
      → length (outbox_of d.store) + n < suc fuel
      → Planned d window todo
      → Returns (
          carry_out env deps todo d
            (drain_loop env deps fuel (window * 2))
            (drain_loop env deps fuel window))
  carry_out-Returns fuel n window d finish ih o w l p = ((ok tt, d), refl, o)
  carry_out-Returns fuel zero window d widen ih o w l p = absurd (omega (arith, w, p))
  carry_out-Returns fuel (suc n) window d widen ih o w l p =
      ih n (window * 2) d o w (omega (arith, l))
  carry_out-Returns fuel n window d (serve groups) ih o w l p =
      let m = outbox_of d.store in
      let (r, e, j) =
        run_round-Finishes env deps (Present m) (Short m) Sound (Short-Keeps m) groups d p
          (o, λ q. absurd (q refl), omega arith, λ q k h. h) in
      rw e (after_round-Returns fuel n window m ih w l r j)

  drain_loop-Returns : (fuel : ℕ) → Loops fuel
  unfolding drain_loop
  drain_loop-Returns zero n window d o w l = absurd (omega arith)
  drain_loop-Returns (suc fuel) n window d o w l =
      carry_out-Returns fuel n window d (plan env deps window d) (drain_loop-Returns fuel) o w l
        (plan-Planned window d o)

  reported-outbox :
      (r : Result (Unit {0}) × Drain W)
      → outbox_of (reported env deps r).1.store ≡ outbox_of r.1.store
  reported-outbox (err lost, d) = refl
  reported-outbox (ok u, d) = refl

  -- A drain leaves each row filed under the id of its event.
  pub drain_outbox-IsOutbox :
      (has_consumer : Bool) (s : MemoryStore) (w : W)
      → IsOutbox (outbox_of s)
      → (r : Result DrainResult × Drain W) × (drain_outbox env deps has_consumer s w ≡ some r)
        × IsOutbox (outbox_of r.1.store)
  unfolding drain_outbox drain_fuel
  drain_outbox-IsOutbox false s w o = (_, refl, o)
  drain_outbox-IsOutbox true s w o =
      let (r, e, f) =
        drain_loop-Returns (drain_fuel env deps s) 4 deps.dispatch_batch_size (start env deps s w) o
          (omega arith) (omega arith) in
      (reported env deps r, ap (report env deps) e, subst IsOutbox (sym (reported-outbox r)) f)

  -- A drain returns, or throws that the lease is lost: its fuel is enough, whatever the consumer
  -- answers and in whatever order the workers take turns, where each row of the outbox is filed under
  -- the id of its event.
  pub drain_outbox-Returns :
      (has_consumer : Bool) (s : MemoryStore) (w : W)
      → IsOutbox (outbox_of s)
      → (r : Result DrainResult × Drain W) × (drain_outbox env deps has_consumer s w ≡ some r)
  drain_outbox-Returns has s w o = let (r, e, f) = drain_outbox-IsOutbox has s w o in (r, e)
