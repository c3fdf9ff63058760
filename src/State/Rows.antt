-- ===== src/State/Rows.antt =====
-- The rows of src/state/: the records of src/runtime/ports.ts that the repositories store. A column
-- that the code keeps as JSON holds the value itself: the JSON library is not modelled.
use autogent.Prelude.{ℕ, String, Option, List}
use autogent.Utf16.{Utf16}
use autogent.Nostr.{NostrEvent}

pub data InboxDisposition : Type 0 where
  queued prompted steer_pending steer_delivered completed rejected dead_letter : InboxDisposition

pub record InboxRecord : Type 0 where
  pub event_id : String
  pub channel_id : String
  pub thread_root_id : String
  pub author_pubkey : String
  pub created_at : ℕ
  pub received_at : ℕ
  pub disposition : InboxDisposition
  pub turn_id : Option String
  pub input_ordinal : Option ℕ
  pub raw_event : NostrEvent

pub data TurnState : Type 0 where
  created running settling settled interrupted failed completed : TurnState

pub record TurnRecord : Type 0 where
  pub turn_id : String
  pub channel_id : String
  pub thread_root_id : String
  pub primary_trigger_event_id : String
  pub primary_author_pubkey : String
  pub state : TurnState
  pub started_at : ℕ
  pub settled_at : Option ℕ
  pub stop_reason : Option String

pub data TurnInputRole : Type 0 where
  primary steer : TurnInputRole

pub data DeliveryState : Type 0 where
  pending delivered : DeliveryState

pub record TurnInputRow : Type 0 where
  pub turn_id : String
  pub event_id : String
  pub role : TurnInputRole
  pub ordinal : ℕ
  pub delivery_state : DeliveryState
  pub delivered_at : Option ℕ

pub data OutputIntentState : Type 0 where
  pending signed published abandoned : OutputIntentState

pub record OutputIntent : Type 0 where
  pub logical_id : String
  pub turn_id : String
  pub pi_message_id : String
  pub ordinal : ℕ
  pub content : Utf16
  pub channel_id : String
  pub reply_event_id : String
  pub root_event_id : String
  pub participant_pubkeys : List String
  pub state : OutputIntentState

-- A row of `output_intents` is the intent and the time at which it was stored.
pub record IntentRow : Type 0 where
  pub intent : OutputIntent
  pub open intent use *
  pub created_at : ℕ

pub data OutboxState : Type 0 where
  pending published failed dead_letter : OutboxState

pub record OutboxRecord : Type 0 where
  pub logical_id : String
  pub event_id : String
  pub kind : ℕ
  pub signed_event : NostrEvent
  pub state : OutboxState
  pub attempts : ℕ
  pub next_retry_at : Option ℕ
  pub last_error : Option String

-- A row of `outbox` is the record and the time at which it was stored.
pub record OutboxRow : Type 0 where
  pub out : OutboxRecord
  pub open out use *
  pub created_at : ℕ

-- The tables of INITIAL_SCHEMA that the modelled code uses.
pub record Db : Type 0 where
  pub inbox : List InboxRecord
  pub turns : List TurnRecord
  pub turn_inputs : List TurnInputRow
  pub output_intents : List IntentRow
  pub outbox : List OutboxRow
