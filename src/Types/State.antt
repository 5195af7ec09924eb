-- ===== src/Types/State.antt =====
-- src/core/store-types.ts: the key, the lease and the persisted state of a poller partition.
use watukuy.Base.{ℕ, Bool, true, String, Option, none, some, ◌≡◌, ◌↔◌, ◌&&◌, arith, Key}
use text.Mathlib.Text.{◌==◌ as str_eq}
use text.Mathlib.TextEquality.{eq_iff}
use watukuy.Types.Errors.{RateLimitInfo, SerializedError}
use watukuy.Types.Event.{Lane, live, backfill, reconcile, replay}

pub record PKey : Type 0 where
  pub poller : String
  pub partition : String

abbrev pub pkey_same : PKey → PKey → Bool
pkey_same a b = str_eq a.poller b.poller && str_eq a.partition b.partition

pub pkey_same_iff : (a b : PKey) → (pkey_same a b ≡ true) ↔ (a ≡ b)
pkey_same_iff a b = ground (arith, eq_iff a.poller b.poller, eq_iff a.partition b.partition)

-- The text `JSON.stringify([poller, partition])` under which a record is filed tells keys apart.
instance abbrev pub pkey_eq : Key PKey
pkey_eq = record { same = pkey_same; same_iff = pkey_same_iff }

pub record Lease : Type 0 where
  pub owner : String
  pub epoch : ℕ
  pub expires_at : ℕ

pub data CircuitState : Type 0 where
  closed opened half_open : CircuitState

pub record EventCounts : Type 0 where
  pub created : ℕ
  pub updated : ℕ
  pub deleted : ℕ

pub record PollSummary : Type 0 where
  pub lane : Lane
  pub started_at : ℕ
  pub duration_ms : ℕ
  pub pages : ℕ
  pub items : ℕ
  pub events : EventCounts
  pub not_modified : Bool
  pub truncated : Bool

pub record ScheduleState : Type 0 where
  pub next_due_at : Option ℕ
  pub interval_ms : Option ℕ
  pub consecutive_failures : ℕ
  pub circuit : CircuitState
  pub circuit_opened_at : Option ℕ
  pub throttled_until : Option ℕ
  pub rate_limit : Option RateLimitInfo
  pub last_poll_at : Option ℕ
  pub last_poll : Option PollSummary
  pub last_error : Option SerializedError

-- An absent `done` or `force` is false, an absent `target` or `lastRunAt` is null.
pub record LaneCursor : Type 0 where
  pub cursor : Option String
  pub target : Option String
  pub done : Bool
  pub last_run_at : Option ℕ
  pub force : Bool

pub record Lanes : Type 0 where
  pub live : Option LaneCursor
  pub backfill : Option LaneCursor
  pub reconcile : Option LaneCursor
  pub replay : Option LaneCursor

abbrev pub no_lanes : Lanes
no_lanes = record { live = none; backfill = none; reconcile = none; replay = none }

-- `lanes[lane]`
abbrev pub lane_of : Lanes → Lane → Option LaneCursor
lane_of l live = l.live
lane_of l backfill = l.backfill
lane_of l reconcile = l.reconcile
lane_of l replay = l.replay

-- `{ ...lanes, [lane]: next }`
abbrev pub with_lane : Lanes → Lane → LaneCursor → Lanes
with_lane l live c = record l { live = some c }
with_lane l backfill c = record l { backfill = some c }
with_lane l reconcile c = record l { reconcile = some c }
with_lane l replay c = record l { replay = some c }

pub record PollerState : Type 0 where
  pub lanes : Lanes
  pub schedule : ScheduleState
  pub paused : Bool
  pub schema_version : Option ℕ
  pub sequence : ℕ
  pub created_at : ℕ
  pub updated_at : ℕ

-- `Partial<Omit<PollerState, 'createdAt'>>`: a field that is `none` is absent.
pub record StatePatch : Type 0 where
  pub lanes : Option Lanes
  pub schedule : Option ScheduleState
  pub paused : Option Bool
  pub schema_version : Option (Option ℕ)
  pub sequence : Option ℕ
  pub updated_at : Option ℕ
