-- ===== src/Engine/Gone.antt =====
-- src/core/engine.ts: what a refresh of the partitions does to those that are gone and those that stay.
use watukuy.Base.{
  ◌⊎◌, ==-refl, or_else, ℕ, Bool, true, false, String, string_eq, none, some, List, [], ◌∷◌, elem,
  ◌≡◌, ◌≢◌, refl, sym, arith, ◌∙◌, ap, ==-true, Bool-cases, inl, inr, ◌==◌, if◌then◌else◌,
}
use watukuy.Base.Map
use watukuy.Base.Map.{Map}
use watukuy.Types.{PKey, pkey_eq, PollerState, StatePatch, ok}
use watukuy.Store.{MemoryStore, record_of, load_state}
use watukuy.Store.Rows.{KeyRecord, apply_patch, patch_state}
use watukuy.Store.Calls.{step, saves_unfenced}
use watukuy.Store.Fencing.{record_of-step}
use watukuy.Runner.Cycle.{no_patch}
use watukuy.Engine.{Engine}
use watukuy.Engine.Calls.{run_key-paused, stopped_run}
use watukuy.Runner.Cycle.{Strategy, Api}
use watukuy.Runner.Key.{KeyDeps, run_key}
use watukuy.Engine.Partitions.{
  key_of, paused_gone, pause_unless, pause_gone, refresh_partitions, listed, is_fresh, check_keys,
  replaced, Listed,
}
use watukuy.Engine.Seeded.{seed_due-listed, seed_due-others}

module _ (poller : String) (now : ℕ) where
  abbrev patch : StatePatch
  patch = record no_patch { paused = some true; updated_at = some now }

  abbrev pub IsPaused : MemoryStore → PKey → Type 0
  IsPaused s key = (state : PollerState) × (load_state s key ≡ some state) × (state.paused ≡ true)

  paused_gone-record_of :
      (p : String) (e : Engine) (j : PKey)
      → record_of (paused_gone poller now p e).store j ≡ (
          if key_of poller p == j
          then apply_patch
              (record no_patch { paused = some true; updated_at = some now })
              (record_of e.store j)
          else record_of e.store j)
  paused_gone-record_of p e j =
      unfold step in
      elim (Bool-cases (key_of poller p == j)) [
        | inl t ↦
            record_of-step e.store (key_of poller p) j (saves_unfenced patch)
            ∙ rw t (
                ap (λ (k : PKey). apply_patch patch (record_of e.store k))
                  ((pkey_eq.same_iff (key_of poller p) j).0 t))
        | inr f ↦ record_of-step e.store (key_of poller p) j (saves_unfenced patch) ∙ rw f refl
      ]

  -- Paused, and not scheduled.
  abbrev pub Gone : Engine → PKey → Type 0
  Gone e k = IsPaused e.store k × (Map.get k e.next_due ≡ none)

  paused_gone-IsPaused :
      (p : String) (e : Engine) (k : PKey)
      → (key_of poller p == k) ≡ true
      → IsPaused (paused_gone poller now p e).store k
  unfolding load_state apply_patch patch_state
  paused_gone-IsPaused p e k t =
      let written : record_of (paused_gone poller now p e).store k
          ≡ apply_patch patch (record_of e.store k) =
        paused_gone-record_of p e k ∙ rw t refl in
      (_, ap (λ (r : KeyRecord). r.state) written, refl)

  same_record-IsPaused :
      (s t : MemoryStore) (k : PKey) → record_of t k ≡ record_of s k → IsPaused s k → IsPaused t k
  unfolding load_state
  same_record-IsPaused s t k e (state, p, q) = (state, ap (λ (r : KeyRecord). r.state) e ∙ p, q)

  pause_unless-Gone :
      (b : Bool) (p : String) (e : Engine) (k : PKey)
      → Gone e k
      → Gone (pause_unless poller now b p e) k
  pause_unless-Gone true p e k h = h
  pause_unless-Gone false p e k (h, n) = (
    elim (Bool-cases (key_of poller p == k)) [
      | inl t ↦ paused_gone-IsPaused p e k t
      | inr f ↦ same_record-IsPaused e.store _ k (paused_gone-record_of p e k ∙ rw f refl) h
    ],
    rw Map.get-delete (ground (arith, n)),
  )

  pause_unless-others :
      (b : Bool) (p : String) (e : Engine) (k : PKey)
      → (b ≡ false → (key_of poller p == k) ≡ false)
      → (record_of (pause_unless poller now b p e).store k ≡ record_of e.store k)
        × (Map.get k (pause_unless poller now b p e).next_due ≡ Map.get k e.next_due)
  pause_unless-others true p e k h = (refl, refl)
  pause_unless-others false p e k h =
      (paused_gone-record_of p e k ∙ rw (h refl) refl, rw (Map.get-delete, h refl) refl)

  pause_unless-false :
      (b : Bool) (p q : String) (e : Engine)
      → b ≡ false
      → p ≡ q
      → Gone (pause_unless poller now b p e) (key_of poller q)
  pause_unless-false true p q e f h = absurd (cc f)
  pause_unless-false false p q e f h =
      let t : (key_of poller p == key_of poller q) ≡ true =
        (pkey_eq.same_iff (key_of poller p) (key_of poller q)).1 (ap (key_of poller) h) in
      (paused_gone-IsPaused p e (key_of poller q) t, rw (Map.get-delete, t) refl)

  pause_gone-kept :
      (seen olds : List String) (e : Engine) (k : PKey)
      → Gone e k
      → Gone (pause_gone poller now seen olds e) k
  unfolding pause_gone
  pause_gone-kept seen [] e k h = h
  pause_gone-kept seen (old ∷ olds) e k h =
      pause_gone-kept seen olds (pause_unless poller now (elem old seen) old e) k
        (pause_unless-Gone (elem old seen) old e k h)

  pause_gone-Gone :
      (seen olds : List String) (e : Engine) (p : String)
      → elem p seen ≡ false
      → elem p olds ≡ true
      → Gone (pause_gone poller now seen olds e) (key_of poller p)
  unfolding pause_gone elem
  pause_gone-Gone seen [] e p f h = absurd (cc h)
  pause_gone-Gone seen (old ∷ olds) e p f h = elim (Bool-cases (old == p)) [
    | inl t ↦
        pause_gone-kept seen olds (pause_unless poller now (elem old seen) old e) (key_of poller p)
          (pause_unless-false (elem old seen) old p e
            (ap (λ (x : String). elem x seen) (==-true old p t) ∙ f) (==-true old p t))
    | inr n ↦
        pause_gone-Gone seen olds (pause_unless poller now (elem old seen) old e) p f
          (ground (arith, h, n))
  ]

  -- A key that is not among those that are gone is left alone.
  pause_gone-others :
      (seen olds : List String) (e : Engine) (k : PKey)
      → ((p : String) → elem p olds ≡ true → elem p seen ≡ false → (key_of poller p == k) ≡ false)
      → (record_of (pause_gone poller now seen olds e).store k ≡ record_of e.store k)
        × (Map.get k (pause_gone poller now seen olds e).next_due ≡ Map.get k e.next_due)
  unfolding pause_gone elem
  pause_gone-others seen [] e k h = (refl, refl)
  pause_gone-others seen (old ∷ olds) e k h =
      let next = pause_unless poller now (elem old seen) old e in
      let (r, d) = pause_gone-others seen olds next k (λ p m. h p (ground (arith, m))) in
      let (r1, d1) =
        pause_unless-others (elem old seen) old e k (h old (ground (arith, ==-refl old))) in
      (r ∙ r1, d ∙ d1)

  unlike : (a k : PKey) → a ≢ k → (a == k) ≡ false
  unlike a k n = ground (arith, pkey_eq.same_iff a k)

  -- A key in the list and one that is not are not the same.
  unlike_listed : (ps : List String) (p q : String) → elem p ps ≡ true → elem q ps ≡ false → q ≢ p
  unlike_listed ps p q h f e = cc (ap (λ (x : String). elem x ps) e, h, f)

  -- A refresh that lists partitions anew. Those that are gone are paused and not scheduled; those that
  -- are listed keep their records, with their pause, and the time that they are due at, which is now
  -- for those that had none; no other key is touched.
  pub refresh_partitions_lem :
      (force : Bool) (refresh_ms : ℕ) (ps : List String) (rt : Listed) (e : Engine)
      → rt.partitioned ≡ true
      → is_fresh force rt.loaded_at now refresh_ms ≡ false
      → check_keys poller [] ps ≡ ok tt
      → (after : Listed × Engine) × (refresh_partitions poller now force refresh_ms (listed ps) rt e
          ≡ ok after)
        × (after.0.partitions ≡ ps)
        × ((p : String)
            → elem p ps ≡ false
            → elem p rt.partitions ≡ true
            → Gone after.1 (key_of poller p))
        × ((p : String)
            → elem p ps ≡ true
            → (record_of after.1.store (key_of poller p) ≡ record_of e.store (key_of poller p))
              × (Map.get (key_of poller p) after.1.next_due
                  ≡ some (or_else (Map.get (key_of poller p) e.next_due) now)))
        × ((k : PKey)
            → ((p : String)
                → (elem p ps ≡ true) ⊎ (elem p rt.partitions ≡ true)
                → key_of poller p ≢ k)
            → (record_of after.1.store k ≡ record_of e.store k)
              × (Map.get k after.1.next_due ≡ Map.get k e.next_due))
  unfolding refresh_partitions
  refresh_partitions_lem force refresh_ms ps rt e partitioned stale checked =
      let gone = pause_gone poller now ps rt.partitions e in
      (
        replaced poller now rt ps e,
        rw (partitioned, stale, checked) refl,
        refl,
        λ p f h. (
          (pause_gone-Gone ps rt.partitions e p f h).0,
          seed_due-others poller now ps gone.next_due (key_of poller p) (λ q m.
                unlike (key_of poller q) (key_of poller p)
                  (λ s. unlike_listed ps q p m f (ap (λ (x : PKey). x.partition) (sym s))))
              ∙ (pause_gone-Gone ps rt.partitions e p f h).1,
        ),
        λ p h. (
          (pause_gone-others ps rt.partitions e (key_of poller p) (λ q old f.
              unlike (key_of poller q) (key_of poller p)
                (λ s. unlike_listed ps p q h f (ap (λ (x : PKey). x.partition) s)))).0,
          seed_due-listed poller now ps gone.next_due p h
              ∙ ap (λ o. some (or_else o now))
                  (pause_gone-others ps rt.partitions e (key_of poller p) (λ q old f.
                    unlike (key_of poller q) (key_of poller p)
                      (λ s. unlike_listed ps p q h f (ap (λ (x : PKey). x.partition) s)))).1,
        ),
        λ k n.
            let (r, d) =
              pause_gone-others ps rt.partitions e k
                (λ p old f. unlike (key_of poller p) k (n p (inr old))) in
            (
              r,
              seed_due-others poller now ps gone.next_due k
                    (λ p m. unlike (key_of poller p) k (n p (inl m)))
                  ∙ d,
            ),
      )

  -- A partition that was gone and is listed again is scheduled, but its runs stop at once: the refresh
  -- does not resume it.
  pub returned-stops :
      {W C R : Type 0} (api : Api W C) (strategy : Strategy C) (reconcile_api : Api W R)
      (reconcile_strategy : Strategy R) (deps : KeyDeps) (world : W) (refresh_ms : ℕ)
      (ps : List String) (rt : Listed) (e : Engine) (p : String)
      → rt.partitioned ≡ true
      → is_fresh false rt.loaded_at now refresh_ms ≡ false
      → check_keys poller [] ps ≡ ok tt
      → elem p ps ≡ true
      → deps.page.key ≡ key_of poller p
      → Gone e (key_of poller p)
      → (after : Listed × Engine) × (refresh_partitions poller now false refresh_ms (listed ps) rt e
          ≡ ok after)
        × (Map.has (key_of poller p) after.1.next_due ≡ true)
        × (run_key api strategy reconcile_api reconcile_strategy deps after.1.store world
            ≡ stopped_run api strategy reconcile_api reconcile_strategy deps after.1.store world)
  returned-stops api strategy reconcile_api reconcile_strategy deps world refresh_ms ps rt e p
        partitioned stale checked listed_again key gone =
      let (after, done, _, _, stays, _) =
        refresh_partitions_lem false refresh_ms ps rt e partitioned stale checked in
      let (state, h, q) =
        same_record-IsPaused e.store after.1.store (key_of poller p) (stays p listed_again).0
          gone.0 in
      (
        after,
        done,
        rw (stays p listed_again).1 refl,
        run_key-paused api strategy reconcile_api reconcile_strategy deps after.1.store world state
            (ap (load_state after.1.store) key ∙ h) q,
      )
