-- ===== src/Dispatcher/History.antt =====
-- src/core/dispatcher.ts: a drain and the deliveries behind its writes.
use watukuy.Base.{
  ◌++◌, Some, ℕ, zero, suc, ◌+◌, ◌≤◌, Bool, true, false, Option, none, some, String, List, [], ◌∷◌,
  ◌≡◌, ◌⊎◌, refl, sym, ◌∙◌, ap, subst, arith, All, In, inl, inr, Bool-cases, string_eq, nat_eqb,
  elem, ◌*◌, or_else,
}
use watukuy.Types.{OutboxRow, Result, ok, err, pkey_eq, WatukuyEvent}
use watukuy.Store.{MemoryStore, record_of}
use watukuy.Store.Calls.{writes, write, step, Write, acks, parks, run}
use watukuy.Store.Delivery.{Queued, TakesOut, run-Queued}
use watukuy.Store.Queries.{load_pending, count_pending}
use watukuy.Dispatcher.{
  parked_row, attempted_event, Error, Env, DispatcherDeps, Drain, DrainResult, Group, stopped,
}
use watukuy.Dispatcher.Turns.{Ends, run_round-Finishes}
use watukuy.Dispatcher.Endings.{deliverable-All, refused_write}
use watukuy.Dispatcher.Loop.{
  Plan, finish, widen, serve, plan_groups, plan, no_groups, is_exhausted, after_round, carry_out,
  drain_loop, drain_outbox, drain_fuel, start, report, reported,
}
use watukuy.Dispatcher.Written.{
  Delivery, Counts, Drained, starts, yields, loads, gives_up, stores, is_refused, History, Record,
  History-Keeps,
}
use watukuy.Dispatcher.Settle.{Tries, acking, giving_up, trying_again}

module _ {W : Type 0} (env : Env W) (deps : DispatcherDeps) (s : MemoryStore) (w : W) where
  -- How a drain ends, by its deliveries.
  abbrev Explained : Result (Unit {0}) × Drain W → Type 0
  Explained r =
      (slice : List OutboxRow) × Ends env deps (λ x. In x slice) (History env deps s w slice)
        (Record env deps s w slice) r

  abbrev Done : Option (Result (Unit {0}) × Drain W) → Type 0
  Done o = (r : Result (Unit {0}) × Drain W) → o ≡ some r → Explained r

  abbrev Known : Drain W → Type 0
  Known d = (slice : List OutboxRow) × History env deps s w slice d

  All-In :
      (rows slice : List OutboxRow)
      → ((r : OutboxRow) → In r rows → In r slice)
      → All (λ r. In r slice) rows
  All-In [] slice h = tt
  All-In (r ∷ rows) slice h = (h r (inl refl), All-In rows slice (λ q i. h q (inr i)))

  abbrev Given : List OutboxRow → Plan → Type 0
  Given slice (serve groups) = All (λ (g : Group). All (λ r. In r slice) g.rows) groups
  Given slice _ = Unit

  plan_groups-Given :
      (slice : List OutboxRow) (window : ℕ) (rows : List OutboxRow) (groups : List Group)
      → All (λ (g : Group). All (λ r. In r slice) g.rows) groups
      → Given slice (plan_groups env deps rows window groups)
  unfolding plan_groups no_groups
  plan_groups-Given slice window [] groups h = tt
  plan_groups-Given slice window (row ∷ rows) (g ∷ groups) h = h
  plan_groups-Given slice window (row ∷ rows) [] h =
      elim (Bool-cases (is_exhausted env deps (row ∷ rows) window)) [
        | inl t ↦ rw t tt
        | inr f ↦ rw f tt
      ]

  plan-Given :
      (window : ℕ) (d : Drain W)
      → Given (load_pending d.store deps.key window) (plan env deps window d)
  unfolding plan
  plan-Given window d =
      let slice = load_pending d.store deps.key window in
      elim (Bool-cases (stopped env deps d)) [
        | inl t ↦ rw t tt
        | inr f ↦ rw f (
            plan_groups-Given slice window slice _
              (deliverable-All env deps (λ r. In r slice) slice d (All-In slice slice (λ r i. i))))
      ]

  Done-some : (r : Result (Unit {0}) × Drain W) → Explained r → Done (some r)
  Done-some r j q h =
      subst Explained (ap (λ (o : Option (Result (Unit {0}) × Drain W)). or_else o q) h) j

  after_round-Done :
      (again : Drain W → Option (Result (Unit {0}) × Drain W))
      → ((e : Drain W) → Known e → Done (again e))
      → (r : Result (Unit {0}) × Drain W) → Explained r
      → Done (after_round env deps (some r) again)
  after_round-Done again ih (err lost, e) j = Done-some (err lost, e) j
  after_round-Done again ih (ok u, e) j = elim (Bool-cases (nat_eqb e.progress 0)) [
    | inl t ↦ rw t (Done-some (ok tt, e) j)
    | inr f ↦ rw f (ih e j)
  ]

  carry_out-Done :
      (slice : List OutboxRow) (todo : Plan) (d : Drain W)
      (wider again : Drain W → Option (Result (Unit {0}) × Drain W))
      → Given slice todo
      → History env deps s w slice d
      → Done (wider d)
      → ((e : Drain W) → Known e → Done (again e))
      → Done (carry_out env deps todo d wider again)
  carry_out-Done slice finish d wider again g j more ih = Done-some (ok tt, d) (slice, j)
  carry_out-Done slice widen d wider again g j more ih = more
  carry_out-Done slice (serve groups) d wider again g j more ih =
      let (r, e, k) =
        run_round-Finishes env deps (λ x. In x slice) (History env deps s w slice)
          (Record env deps s w slice) (History-Keeps env deps s w slice) groups d g j in
      rw e (after_round-Done again ih r (slice, k))

  drain_loop-Done :
      (fuel window : ℕ) (d : Drain W) → Known d → Done (drain_loop env deps fuel window d)
  unfolding drain_loop
  drain_loop-Done zero window d j = λ r h. absurd (cc h)
  drain_loop-Done (suc fuel) window d (slice, (es, h, n)) =
      carry_out-Done (load_pending d.store deps.key window) (plan env deps window d) d
        (drain_loop env deps fuel (window * 2)) (drain_loop env deps fuel window)
        (plan-Given window d) (es, loads h window, n)
        (drain_loop-Done fuel (window * 2) d (slice, (es, h, n))) (drain_loop-Done fuel window)

  -- What a drain reports of its deliveries.
  abbrev pub Reports : List (Delivery W) → Result DrainResult × Drain W → Type 0
  Reports es (err lost, d) = Unit
  Reports es (ok r, d) = Counts es r × (r.remaining ≡ count_pending d.store deps.key)

  abbrev Told : Result DrainResult × Drain W → Type 0
  Told r =
      (es : List (Delivery W)) × (slice : List OutboxRow) × Drained env deps s w es slice r.1.store
        r.1.world
      × Reports es r

  reported-Told : (q : Result (Unit {0}) × Drain W) → Explained q → Told (reported env deps q)
  reported-Told (err lost, d) (slice, j) = (j.0, slice, j.1, tt)
  reported-Told (ok u, d) (slice, j) = (j.0, slice, j.1, (j.2, refl))

  started : Known (start env deps s w)
  started = ([], ([], starts, (refl, refl, refl)))

  report-Told :
      (o : Option (Result (Unit {0}) × Drain W)) (r : Result DrainResult × Drain W)
      → Done o
      → report env deps o ≡ some r
      → Told r
  report-Told none r j h = absurd (cc h)
  report-Told (some q) r j h =
      subst Told (ap (λ (o : Option (Result DrainResult × Drain W)). or_else o r) h)
        (reported-Told q (j q refl))

  -- A drain is a sequence of deliveries and store writes that leads from the store and the environment
  -- at its start to those at its end: each delivery is of a row that was loaded from the store as the
  -- drain had left it, to the consumer as it then was, and asks for the acknowledgement of this row
  -- where it was accepted, its parking where its last attempt failed, and the record of the attempt
  -- where an earlier one failed. Where no lease is lost, the drain counts the writes that were granted,
  -- and reports what is left.
  pub drain_outbox-History :
      (has_consumer : Bool) (r : Result DrainResult × Drain W)
      → drain_outbox env deps has_consumer s w ≡ some r
      → (es : List (Delivery W)) × (slice : List OutboxRow) × Drained env deps s w es slice
          r.1.store r.1.world
        × Reports es r
  unfolding drain_outbox
  drain_outbox-History false r h =
      report-Told (some (ok tt, start env deps s w)) r (Done-some _ started) h
  drain_outbox-History true r h =
      report-Told
        (drain_loop env deps (drain_fuel env deps s) deps.dispatch_batch_size (start env deps s w))
        r (drain_loop-Done (drain_fuel env deps s) deps.dispatch_batch_size _ started) h

  abbrev EndedBy : String → OutboxRow → W → Write → Type 0
  EndedBy id row v (acks ids) =
      (row.event_id ≡ id) × ((env.deliver (attempted_event row) v).0 ≡ ok tt)
  EndedBy id row v (parks p) =
      (row.event.id ≡ id)
      × ((thrown : Error) × ((env.deliver (attempted_event row) v).0 ≡ err thrown))
      × (deps.poller.delivery.retry_attempts ≤ row.attempts + 1)
  EndedBy id row v _ = ⊥

  -- One of the deliveries decided the event: the consumer accepted it, and it was acknowledged, or its
  -- last attempt failed, and it was parked.
  abbrev pub IsDecided : String → List (Delivery W) → Type 0
  IsDecided id = Some (λ (e : Delivery W). EndedBy id e.row e.at e.write)

  TakesOut-EndedBy :
      (id k : String) (row : OutboxRow) (v world : W) (x : Write)
      → Tries env deps k row v world x
      → TakesOut id x
      → EndedBy id row v x
  unfolding parked_row
  TakesOut-EndedBy id k row v _ _ (acking world e) t = (one_of t, ap (λ r. r.0) e)
    where
      one_of : elem id (row.event_id ∷ []) ≡ true → row.event_id ≡ id
      one_of h = unfold elem in ground (arith, string_eq.same_iff row.event_id id, h)
  TakesOut-EndedBy id k row v _ _ (giving_up world thrown e late) t =
      (ap (λ (v : WatukuyEvent). v.id) same ∙ t.2, (thrown, ap (λ r. r.0) e), late)
    where
      same : row.event ≡ t.0
      same = ap (λ (o : Option WatukuyEvent). or_else o row.event) t.1
  TakesOut-EndedBy id k row v _ _ (trying_again world thrown e early) t = absurd t

  Some-before :
      (P : Delivery W → Type 0) (es fs : List (Delivery W)) → Some P es → Some P (es ++ fs)
  Some-before P [] fs h = absurd h
  Some-before P (e ∷ es) fs (inl p) = inl p
  Some-before P (e ∷ es) fs (inr h) = inr (Some-before P es fs h)

  Some-last :
      (P : Delivery W → Type 0) (es : List (Delivery W)) (e : Delivery W)
      → P e
      → Some P (es ++ e ∷ [])
  Some-last P [] e p = inl p
  Some-last P (f ∷ es) e p = inr (Some-last P es e p)

  -- One write leaves the event where it is, or takes it out.
  write-Queued :
      (id : String) (t : MemoryStore) (x : Write)
      → Queued id (record_of t deps.key)
      → Queued id (record_of (write t deps.key deps.lease x).1 deps.key) ⊎ TakesOut id x
  unfolding run step
  write-Queued id t x q = elim (run-Queued id deps.key t ((deps.key, writes deps.lease x) ∷ []) q) [
    | inl h ↦ inl h
    | inr h ↦ elim h [ inl o ↦ inr o.1.1 | inr o ↦ absurd o ]
  ]

  Drained-Queued :
      (id : String) {es : List (Delivery W)} {slice : List OutboxRow} {t : MemoryStore} {v : W}
      → Drained env deps s w es slice t v
      → Queued id (record_of s deps.key)
      → Queued id (record_of t deps.key) ⊎ IsDecided id es
  Drained-Queued id starts q = inl q
  Drained-Queued id (yields h n) q = Drained-Queued id h q
  Drained-Queued id (loads h n) q = Drained-Queued id h q
  Drained-Queued id (gives_up h row i world thrown e) q = Drained-Queued id h q
  Drained-Queued id (is_refused {t = t} h k row i world x tries thrown a) q =
      elim (Drained-Queued id h q) [
        | inl p ↦ inl (subst (Queued id) (sym (refused_write env deps t x thrown a)) p)
        | inr o ↦ inr o
      ]
  Drained-Queued id (stores {es} {slice} {t} {v} h k row i world x tries a) q =
      elim (Drained-Queued id h q) [
        | inl p ↦ elim (write-Queued id t x p) [
          | inl p' ↦ inl p'
          | inr o ↦ inr (Some-last _ es _ (TakesOut-EndedBy id k row v world x tries o))
        ]
        | inr o ↦ inr (Some-before _ es _ o)
      ]

  -- An event that is in the outbox when a drain starts is there when it ends, also where the lease is
  -- lost, unless one of the deliveries of this drain decided it: the consumer accepted it, and it was
  -- acknowledged, or its last attempt failed, and it was parked. The deliveries are those by which the
  -- drain came to its last store and environment.
  pub drain_outbox-Queued :
      (has_consumer : Bool) (r : Result DrainResult × Drain W) (id : String)
      → drain_outbox env deps has_consumer s w ≡ some r
      → Queued id (record_of s deps.key)
      → (es : List (Delivery W)) × (slice : List OutboxRow) × Drained env deps s w es slice
          r.1.store r.1.world
        × (Queued id (record_of r.1.store deps.key) ⊎ IsDecided id es)
  drain_outbox-Queued has r id h q =
      let (es, slice, e, c) = drain_outbox-History has r h in (es, slice, e, Drained-Queued id e q)
