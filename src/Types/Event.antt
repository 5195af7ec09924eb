-- ===== src/Types/Event.antt =====
-- src/core/event.ts and the `Lane` of src/core/poller-types.ts.
use watukuy.Base.{ℕ, String, Option}
use watukuy.Types.Values.{Value}

pub data Lane : Type 0 where
  live backfill reconcile replay : Lane

pub data EventType : Type 0 where
  created updated deleted : EventType

-- `time` is the epoch time that the source formats as ISO 8601.
pub record WatukuyEvent : Type 0 where
  pub id : String
  pub type : EventType
  pub source : String
  pub subject : String
  pub time : ℕ
  pub poller : String
  pub partition : String
  pub lane : Lane
  pub sequence : ℕ
  pub cursor : Value
  pub payload : Option Value
  pub previous : Option Value
  pub attempt : ℕ
