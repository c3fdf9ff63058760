-- ===== src/Turn.antt =====
-- src/runtime/turn-context.ts: the identity of a turn, from which every output takes its address.
pub mod Identity
use autogent.Prelude.{
  ℕ, String, Bool, true, false, List, [], ◌∷◌, ◌++◌, length, ◌==◌, if◌then◌else◌,
}
use autogent.State.Rows.{TurnInputRole, primary, steer}

-- One accepted input of a turn.
pub record TurnInput : Type 0 where
  pub event_id : String
  pub role : TurnInputRole
  pub author_pubkey : String
  pub ordinal : ℕ
  pub created_at : ℕ

pub record TurnContext : Type 0 where
  pub turn_id : String
  pub channel_id : String
  pub thread_root_event_id : String
  pub primary_trigger_event_id : String
  pub primary_author_pubkey : String
  pub started_at_ms : ℕ
  pub accepted_input_event_ids : List String
  pub participant_pubkeys : List String
  pub inputs : List TurnInput

pub record CreateTurnContextArgs : Type 0 where
  pub turn_id : String
  pub channel_id : String
  pub thread_root_event_id : String
  pub primary_trigger_event_id : String
  pub primary_author_pubkey : String
  pub started_at_ms : ℕ
  pub primary_created_at : ℕ

unfoldable pub create_turn_context : CreateTurnContextArgs → TurnContext
create_turn_context args = record {
  turn_id = args.turn_id;
  channel_id = args.channel_id;
  thread_root_event_id = args.thread_root_event_id;
  primary_trigger_event_id = args.primary_trigger_event_id;
  primary_author_pubkey = args.primary_author_pubkey;
  started_at_ms = args.started_at_ms;
  accepted_input_event_ids = args.primary_trigger_event_id ∷ [];
  participant_pubkeys = args.primary_author_pubkey ∷ [];
  inputs =
      (record {
        event_id = args.primary_trigger_event_id;
        role = primary;
        author_pubkey = args.primary_author_pubkey;
        ordinal = 0;
        created_at = args.primary_created_at;
      })
      ∷ [];
}

-- `Array.prototype.includes`.
unfoldable pub includes : String → List String → Bool
includes x [] = false
includes x (y ∷ ys) = if y == x then true else includes x ys

pub record SteeringInput : Type 0 where
  pub event_id : String
  pub author_pubkey : String
  pub created_at : ℕ

unfoldable pub with_steering_input : TurnContext → SteeringInput → TurnContext
unfolding includes
with_steering_input context input =
    if includes input.event_id context.accepted_input_event_ids then context else record context {
      accepted_input_event_ids = context.accepted_input_event_ids ++ input.event_id ∷ [];
      participant_pubkeys =
          if includes input.author_pubkey context.participant_pubkeys
          then context.participant_pubkeys
          else context.participant_pubkeys ++ input.author_pubkey ∷ [];
      inputs =
          context.inputs
          ++ (record {
            event_id = input.event_id;
            role = steer;
            author_pubkey = input.author_pubkey;
            ordinal = length context.inputs;
            created_at = input.created_at;
          })
            ∷ [];
    }
