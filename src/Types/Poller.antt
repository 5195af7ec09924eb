-- ===== src/Types/Poller.antt =====
-- src/core/poller-types.ts: the resolved poller, as far as the components below read it.
use watukuy.Base.{ℕ, ◌<◌, Bool, String, Option}
use watukuy.Types.Values.{Value}
use watukuy.Types.Event.{WatukuyEvent}

-- A nonnegative number that may have a fraction: jitter, backoff factor, a random draw.
pub record Ratio : Type 0 where
  pub num : ℕ
  pub den : ℕ

-- Every quotient has a positive denominator.
abbrev pub IsRatio : Ratio → Type 0
IsRatio r = 0 < r.den

pub record Backoff : Type 0 where
  pub base_ms : ℕ
  pub factor : Ratio
  pub max_ms : ℕ

pub record Schedule : Type 0 where
  pub min_ms : ℕ
  pub max_ms : ℕ
  pub adaptive : Bool
  pub jitter : Ratio
  pub backoff : Backoff

pub record Circuit : Type 0 where
  pub failures : ℕ
  pub probe_every_ms : ℕ

pub data PoisonAction : Type 0 where
  park halt : PoisonAction

pub record Delivery : Type 0 where
  pub ordering_key : Option (WatukuyEvent → String)
  pub concurrency : ℕ
  pub retry_attempts : ℕ
  pub retry_backoff : Backoff
  pub poison_action : PoisonAction
  pub poison_hold_key : Bool
  pub manual_ack : Bool

pub data Retain : Type 0 where
  hash_only payload : Retain

pub data OnInvalid : Type 0 where
  quarantine skip fail : OnInvalid

pub data OnSchemaChange : Type 0 where
  rebaseline emit : OnSchemaChange

-- `identity` may return anything at run time; `version` is `String(version(item))`.
pub record ResolvedPoller : Type 0 where
  pub name : String
  pub source : String
  pub identity : Value → Value
  pub version : Option (Value → String)
  pub fingerprint : Option (Value → Value)
  pub schema_version : ℕ
  pub schedule : Schedule
  pub delivery : Delivery
  pub retain : Retain
  pub on_invalid : OnInvalid
  pub on_schema_change : OnSchemaChange
  pub reconcile_every_ms : Option ℕ
  pub max_pages_per_cycle : ℕ
  pub circuit : Circuit
  pub log_retention_ms : Option ℕ
