-- ===== src/Types/Rows.antt =====
-- src/core/store-types.ts: the rows that a store keeps for one key, and the batch of a poll.
use watukuy.Base.{ℕ, Bool, String, Option, List}
use watukuy.Types.Values.{Value}
use watukuy.Types.Errors.{SerializedError}
use watukuy.Types.Event.{WatukuyEvent}
use watukuy.Types.State.{StatePatch}

pub record ItemRow : Type 0 where
  pub identity : String
  pub version : Option String
  pub hash : String
  pub schema_version : ℕ
  pub payload : Option Value
  pub seen_at : ℕ

pub data OutboxStatus : Type 0 where
  pending delivered : OutboxStatus

pub record OutboxRow : Type 0 where
  pub event_id : String
  pub sequence : ℕ
  pub event : WatukuyEvent
  pub status : OutboxStatus
  pub attempts : ℕ
  pub next_attempt_at : Option ℕ
  pub last_error : Option SerializedError
  pub created_at : ℕ

pub record Attempt : Type 0 where
  pub at : ℕ
  pub message : String

pub record ParkedError : Type 0 where
  pub error : SerializedError
  pub history : List Attempt
  pub issues : List String

pub data ParkedKind : Type 0 where
  poison invalid : ParkedKind

pub record ParkedRow : Type 0 where
  pub id : String
  pub kind : ParkedKind
  pub event : Option WatukuyEvent
  pub item : Value
  pub error : ParkedError
  pub attempts : ℕ
  pub parked_at : ℕ
  pub hold_key : Option String

pub record Validator : Type 0 where
  pub etag : Option String
  pub last_modified : Option String
  pub stored_at : ℕ

pub record LoggedEvent : Type 0 where
  pub sequence : ℕ
  pub event : WatukuyEvent
  pub created_at : ℕ

-- An absent `parked` is the empty list.
pub record CommitBatch : Type 0 where
  pub state_patch : StatePatch
  pub upserts : List ItemRow
  pub deletes : List String
  pub events : List OutboxRow
  pub log : Bool
  pub parked : List ParkedRow
