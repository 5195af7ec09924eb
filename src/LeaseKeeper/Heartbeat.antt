-- ===== src/LeaseKeeper/Heartbeat.antt =====
-- src/core/lease-keeper.ts: the heartbeat goes on until the keeper is stopped, and a lost lease aborts
-- the cycle and ends it.
use watukuy.Base.{ℕ, true, false, ◌≡◌, refl, ◌⊎◌, inl, arith}
use watukuy.LeaseKeeper.{
  LeaseKeeper, new_keeper, Renewal, renewed, refused, threw, schedule, start, stop, lose, beat,
  answer, renew_now,
}

-- What can happen to a keeper that was started: timers that are set fire, and beats are answered.
pub data Step (ttl_ms : ℕ) (k : LeaseKeeper) : LeaseKeeper → Type 0 where
  fires : k.scheduled ≡ true → Step ttl_ms k (beat k)
  answers : (now : ℕ) (r : Renewal) → k.beating ≡ true → Step ttl_ms k (answer ttl_ms now r k)
  renews : (r : Renewal) → Step ttl_ms k (renew_now r k).0
  stops : Step ttl_ms k (stop k)

pub data Reach (ttl_ms : ℕ) (k : LeaseKeeper) : LeaseKeeper → Type 0 where
  started : Reach ttl_ms k (start k)
  later : {l m : LeaseKeeper} → Reach ttl_ms k l → Step ttl_ms l m → Reach ttl_ms k m

pub record IsHeartbeat (k : LeaseKeeper) : Type 0 where
  pub told : k.aborted ≡ k.lost
  pub ends : k.lost ≡ true → k.stopped ≡ true
  pub quiet : k.stopped ≡ true → k.scheduled ≡ false
  pub alive : k.stopped ≡ false → (k.scheduled ≡ true) ⊎ (k.beating ≡ true)

Step-IsHeartbeat :
    (ttl_ms : ℕ) (k l : LeaseKeeper) → Step ttl_ms k l → IsHeartbeat k → IsHeartbeat l
unfolding beat answer renew_now stop lose schedule
Step-IsHeartbeat ttl_ms k _ (fires s) h = record {
  told = ground (arith, h.told);
  ends = λ p. ground (arith, h.ends, p);
  quiet = λ p. ground (arith);
  alive = λ p. ground (arith, p);
}
Step-IsHeartbeat ttl_ms k _ (answers now renewed b) h = record {
  told = ground (arith, h.told);
  ends = λ p. ground (arith, h.ends, p);
  quiet = λ p. ground (arith, h.quiet, p);
  alive = λ p. ground (arith, p);
}
Step-IsHeartbeat ttl_ms k _ (answers now refused b) h = record {
  told = refl;
  ends = λ p. refl;
  quiet = λ p. refl;
  alive = λ p. absurd (cc p);
}
Step-IsHeartbeat ttl_ms k _ (answers now (threw e) b) h = record {
  told = ground (arith, h.told);
  ends = λ p. ground (arith, h.ends, p);
  quiet = λ p. ground (arith, h.quiet, p);
  alive = λ p. ground (arith, p);
}
Step-IsHeartbeat ttl_ms k _ (renews renewed) h = h
Step-IsHeartbeat ttl_ms k _ (renews refused) h = record {
  told = ground (arith, h.told);
  ends = λ p. ground (arith, h.ends, p);
  quiet = λ p. ground (arith, h.quiet, p);
  alive = λ p. ground (arith, h.alive, p);
}
Step-IsHeartbeat ttl_ms k _ (renews (threw e)) h = h
Step-IsHeartbeat ttl_ms k _ stops h = record {
  told = h.told;
  ends = λ p. refl;
  quiet = λ p. refl;
  alive = λ p. absurd (cc p);
}

-- In every history of a keeper the signal is aborted exactly where the lease is lost, a keeper that has
-- lost its lease is stopped, a stopped keeper has no timer set, and one that is not stopped has a timer
-- set or waits for the store: the heartbeat does not die out, also where a renewal threw.
pub Reach-IsHeartbeat :
    (ttl_ms expires_at : ℕ) (k : LeaseKeeper)
    → Reach ttl_ms (new_keeper expires_at) k
    → IsHeartbeat k
unfolding start schedule
Reach-IsHeartbeat ttl_ms expires_at _ started = record {
  told = refl;
  ends = λ p. absurd (cc p);
  quiet = λ p. absurd (cc p);
  alive = λ p. inl refl;
}
Reach-IsHeartbeat ttl_ms expires_at _ (later {l} {m} r s) =
    Step-IsHeartbeat ttl_ms l m s (Reach-IsHeartbeat ttl_ms expires_at l r)
