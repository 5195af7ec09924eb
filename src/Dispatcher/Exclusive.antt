-- ===== src/Dispatcher/Exclusive.antt =====
-- src/core/dispatcher.ts: the keys of the workers and of the queue, and how one worker that moves leaves
-- them apart.
use watukuy.Base.{
  false, Option, none, some, String, List, [], ◌∷◌, ◌≡◌, ◌⊎◌, ◌≢◌, sym, subst, arith, All, inl, inr,
  elem, string_eq,
}
use watukuy.Dispatcher.{Group, Worker, free, serving, delivering}
use watukuy.Dispatcher.Round.{kept}

-- The ordering key whose group a worker has.
abbrev pub key_of : Worker → Option String
key_of free = none
key_of (serving k rows) = some k
key_of (delivering k row rows) = some k

abbrev pub Differ : Option String → Option String → Type 0
Differ none k = Unit
Differ (some j) none = Unit
Differ (some j) (some k) = j ≢ k

pub Differ-sym : (j k : Option String) → Differ j k → Differ k j
Differ-sym none none d = tt
Differ-sym none (some k) d = tt
Differ-sym (some j) none d = tt
Differ-sym (some j) (some k) d = λ e. d (sym e)

abbrev pub Away : Option String → List Group → Type 0
Away k = All (λ (g : Group). Differ k (some g.key))

-- No two workers have groups of one key, and the groups of the queue have further keys.
abbrev pub Apart : List Worker → List Group → Type 0
Apart [] queue = Unit
Apart (w ∷ ws) queue =
    All (λ v. Differ (key_of w) (key_of v)) ws × Away (key_of w) queue × Apart ws queue

abbrev pub Unblocked : List String → Option String → Type 0
Unblocked blocked none = Unit
Unblocked blocked (some k) = elem k blocked ≡ false

abbrev pub Alone : Group → List Group → Type 0
Alone g = All (λ (h : Group). g.key ≢ h.key)

abbrev pub Several : List Group → Type 0
Several [] = Unit
Several (g ∷ queue) = Alone g queue × Several queue

-- What holds between two turns of a round: the keys of the workers and of the queue are all
-- different, and none of them is blocked.
abbrev pub IsExclusive : List Worker → List String → List Group → Type 0
IsExclusive ws blocked queue =
    Apart ws queue
    × Several queue
    × All (λ w. Unblocked blocked (key_of w)) ws
    × All (λ (g : Group). Unblocked blocked (some g.key)) queue

-- A worker moves on, with its key or without one; only its own key is blocked, and then it has left.
abbrev pub Stays : String → List String → Option Worker → List String → Type 0
Stays k before none after = (after ≡ before) ⊎ (after ≡ k ∷ before)
Stays k before (some w) after =
    ((after ≡ before) × ((key_of w ≡ none) ⊎ (key_of w ≡ some k)))
    ⊎ ((after ≡ k ∷ before) × (key_of w ≡ none))

pub drop_group :
    (ws : List Worker) (g : Group) (queue : List Group)
    → Apart ws (g ∷ queue)
    → Apart ws queue × All (λ v. Differ (some g.key) (key_of v)) ws
drop_group [] g queue a = (tt, tt)
drop_group (w ∷ ws) g queue (from, away, rest) =
    let (more, apart) = drop_group ws g queue rest in
    ((from, away.1, more), (Differ-sym (key_of w) (some g.key) away.0, apart))

pub no_key : (ws : List Worker) → All (λ v. Differ none (key_of v)) ws
no_key [] = tt
no_key (w ∷ ws) = (tt, no_key ws)

pub no_key_queue : (queue : List Group) → Away none queue
no_key_queue [] = tt
no_key_queue (g ∷ queue) = (tt, no_key_queue queue)

pub blocks_other :
    (k : String) (before : List String) (j : Option String)
    → Differ (some k) j
    → Unblocked before j
    → Unblocked (k ∷ before) j
unfolding elem
blocks_other k before none d u = tt
blocks_other k before (some j) d u = ground (arith, string_eq.same_iff k j, d, u)

-- The others, where the key of the one that moves is blocked or not.
pub others :
    (k : String) (before after : List String) (ws : List Worker)
    → (after ≡ before) ⊎ (after ≡ k ∷ before)
    → All (λ v. Differ (some k) (key_of v)) ws
    → All (λ v. Unblocked before (key_of v)) ws
    → All (λ v. Unblocked after (key_of v)) ws
others k before after [] c d u = tt
others k before after (w ∷ ws) c d u = (one c, others k before after ws c d.1 u.1)
  where
    one : (after ≡ before) ⊎ (after ≡ k ∷ before) → Unblocked after (key_of w)
    one (inl e) = subst (λ b. Unblocked b (key_of w)) (sym e) u.0
    one (inr e) =
        subst (λ b. Unblocked b (key_of w)) (sym e) (blocks_other k before (key_of w) d.0 u.0)

pub waiting_others :
    (k : String) (before after : List String) (queue : List Group)
    → (after ≡ before) ⊎ (after ≡ k ∷ before)
    → Away (some k) queue
    → All (λ (g : Group). Unblocked before (some g.key)) queue
    → All (λ (g : Group). Unblocked after (some g.key)) queue
waiting_others k before after [] c d u = tt
waiting_others k before after (g ∷ queue) c d u =
    (one c, waiting_others k before after queue c d.1 u.1)
  where
    one : (after ≡ before) ⊎ (after ≡ k ∷ before) → Unblocked after (some g.key)
    one (inl e) = subst (λ b. Unblocked b (some g.key)) (sym e) u.0
    one (inr e) =
        subst (λ b. Unblocked b (some g.key)) (sym e) (blocks_other k before (some g.key) d.0 u.0)

pub change_of :
    (k : String) (before : List String) (w : Worker) (after : List String)
    → Stays k before (some w) after
    → (after ≡ before) ⊎ (after ≡ k ∷ before)
change_of k before w after (inl h) = inl h.0
change_of k before w after (inr h) = inr h.0

pub rejoined :
    (k : String) (before : List String) (w : Worker) (rest : List Worker) (after : List String)
    (queue : List Group)
    → Stays k before (some w) after
    → All (λ v. Differ (some k) (key_of v)) rest
    → Away (some k) queue
    → Unblocked before (some k)
    → All (λ v. Differ (key_of w) (key_of v)) rest
      × Away (key_of w) queue
      × Unblocked after (key_of w)
rejoined k before w rest after queue (inl (e, inl n)) d a u =
    subst (λ j. All (λ v. Differ j (key_of v)) rest × Away j queue × Unblocked after j) (sym n)
      (no_key rest, no_key_queue queue, tt)
rejoined k before w rest after queue (inl (e, inr s)) d a u =
    subst (λ j. All (λ v. Differ j (key_of v)) rest × Away j queue × Unblocked after j) (sym s)
      (d, a, subst (λ b. Unblocked b (some k)) (sym e) u)
rejoined k before w rest after queue (inr (e, n)) d a u =
    subst (λ j. All (λ v. Differ j (key_of v)) rest × Away j queue × Unblocked after j) (sym n)
      (no_key rest, no_key_queue queue, tt)

-- A worker with the key `k` moves on.
pub moved-IsExclusive :
    (k : String) (before after : List String) (o : Option Worker) (rest : List Worker)
    (queue : List Group)
    → All (λ v. Differ (some k) (key_of v)) rest × Away (some k) queue × Apart rest queue
    → Several queue
    → Unblocked before (some k)
    → All (λ v. Unblocked before (key_of v)) rest
    → All (λ (g : Group). Unblocked before (some g.key)) queue
    → Stays k before o after
    → IsExclusive (kept o rest) after queue
moved-IsExclusive k before after none rest queue (d, a, p) s u us uq c =
    (p, s, others k before after rest c d us, waiting_others k before after queue c a uq)
moved-IsExclusive k before after (some w) rest queue (d, a, p) s u us uq c =
    let (dw, aw, uw) = rejoined k before w rest after queue c d a u in
    let ch = change_of k before w after c in
    (
      (dw, aw, p),
      s,
      (uw, others k before after rest ch d us),
      waiting_others k before after queue ch a uq,
    )
