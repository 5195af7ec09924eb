-- ===== src/LeaseKeeper.antt =====
-- src/core/lease-keeper.ts: the heartbeat that renews a lease while a cycle runs. A beat is two steps,
-- the timer that fires and the answer of the store, between which anything else may happen.
mod Heartbeat
mod Examples
use watukuy.Base.{ℕ, ◌+◌, Bool, true, false, not, if◌then◌else◌}
use watukuy.Types.{Result, ok, err, Error}

-- `scheduled` is whether a timer is set, `beating` whether a beat waits for the store, `aborted` whether
-- the signal of the cycle is aborted, `expires_at` the keeper's copy of the lease.
pub record LeaseKeeper : Type 0 where
  pub scheduled : Bool
  pub beating : Bool
  pub stopped : Bool
  pub lost : Bool
  pub aborted : Bool
  pub expires_at : ℕ

abbrev pub new_keeper : ℕ → LeaseKeeper
new_keeper expires_at = record {
  scheduled = false;
  beating = false;
  stopped = false;
  lost = false;
  aborted = false;
  expires_at = expires_at;
}

-- What a call of `renewLease` comes to.
pub data Renewal : Type 0 where
  renewed refused : Renewal
  threw : Error → Renewal

unfoldable pub schedule : LeaseKeeper → LeaseKeeper
schedule k = if k.stopped then k else record k { scheduled = true }

unfoldable pub start : LeaseKeeper → LeaseKeeper
unfolding schedule
start k = schedule k

unfoldable pub stop : LeaseKeeper → LeaseKeeper
stop k = record k { stopped = true; scheduled = false }

-- A refused renewal: `lost`, `abort`, `stop`.
unfoldable pub lose : LeaseKeeper → LeaseKeeper
unfolding stop
lose k = stop (record k { lost = true; aborted = true })

-- The timer has fired: `beat` up to its call of the store.
unfoldable pub beat : LeaseKeeper → LeaseKeeper
beat k =
    if k.stopped
    then record k { scheduled = false }
    else record k { scheduled = false; beating = true }

-- `beat` from the answer of the store; `now` is the time at which it arrives.
unfoldable pub answer : ℕ → ℕ → Renewal → LeaseKeeper → LeaseKeeper
unfolding schedule lose
answer ttl_ms now renewed k = schedule (record k { beating = false; expires_at = now + ttl_ms })
answer ttl_ms now refused k = lose (record k { beating = false })
answer ttl_ms now (threw e) k = schedule (record k { beating = false })

-- `renewNow`, taken as one step with the answer of the store.
unfoldable pub renew_now : Renewal → LeaseKeeper → LeaseKeeper × Result Bool
unfolding lose
renew_now renewed k = (k, ok (if k.stopped then not k.lost else true))
renew_now refused k =
    (if k.stopped then k else lose k, ok (if k.stopped then not k.lost else false))
renew_now (threw e) k = (k, if k.stopped then ok (not k.lost) else err e)
