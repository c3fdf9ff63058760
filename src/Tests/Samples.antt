-- ===== src/Tests/Samples.antt =====
-- A channel with its agent: events of two conversations, tables that hold them, an actor in flight.
use autogent.Prelude.{String, true, false, none, some, List, [], ◌∷◌}
use autogent.Nostr.{NostrEvent, NostrTag}
use autogent.State.Rows.{
  InboxDisposition, queued, prompted, InboxRecord, TurnState, TurnRecord, primary, delivered,
  OutboxState, OutboxRow, Db,
}
use autogent.Turn.{CreateTurnContextArgs, create_turn_context}
use autogent.Thread.{conversation_key}
use autogent.Output.Router.{split}
use autogent.Actor.Defs.{ActorState, AcceptedEvent, Env, Session, ActiveTurn, Actor, Deps}

abbrev pub hex_id : String
hex_id = "00112233445566778899aabbccddeeff00112233445566778899aabbccddeeff"

abbrev pub in_thread : List NostrTag
in_thread = ("e" ∷ hex_id ∷ "" ∷ "root" ∷ []) ∷ []

abbrev pub event : String → List NostrTag → NostrEvent
event id tags = record {
  unsigned = record {
    pubkey = "alice";
    created_at = 100;
    kind = 9;
    tags = tags;
    content = 104 ∷ 105 ∷ [];
  };
  id = id;
  sig = "sig";
}

abbrev pub accepted : String → AcceptedEvent
accepted id = record { event = event id in_thread; prompt_tag = "" }

abbrev pub deps : Deps
deps = record {
  relay_id = "relay";
  channel_id = "channel";
  output = record { max_message_bytes = 512; oversize_policy = split };
  build = λ d. record {
    unsigned = record {
      pubkey = "agent";
      created_at = 101;
      kind = d.kind;
      tags = d.tags;
      content = d.content;
    };
    id = "signed";
    sig = "sig";
  };
  idle_timeout_ms = 1000;
  max_turn_duration_ms = 10000;
}

abbrev pub env : Env
env = record {
  now = 200;
  now_after = 201;
  new_turn_id = "turn-2";
  session_disposed = false;
  context_window = none;
  acquired = some (record { session = record { session_id = "session-2" }; seeded = none });
  fetch_delta = λ _. [];
  injected = λ _. true;
  steer_taken = false;
}

-- No session can be had.
abbrev pub offline : Env
offline = record env { acquired = none }

abbrev pub inbox_row : String → InboxDisposition → InboxRecord
inbox_row id d = record {
  event_id = id;
  channel_id = "channel";
  thread_root_id = hex_id;
  author_pubkey = "alice";
  created_at = 100;
  received_at = 150;
  disposition = d;
  turn_id = none;
  input_ordinal = none;
  raw_event = event id in_thread;
}

abbrev pub turn_row : TurnRecord
turn_row = record {
  turn_id = "turn-1";
  channel_id = "channel";
  thread_root_id = hex_id;
  primary_trigger_event_id = "first";
  primary_author_pubkey = "alice";
  state = TurnState.running;
  started_at = 160;
  settled_at = none;
  stop_reason = none;
}

abbrev pub out_row : OutboxRow
out_row = record {
  out = record {
    logical_id = "turn-1:message:0";
    event_id = "signed";
    kind = 9;
    signed_event = event "signed" [];
    state = OutboxState.pending;
    attempts = 0;
    next_retry_at = none;
    last_error = none;
  };
  created_at = 170;
}

abbrev pub db : Db
db = record {
  inbox = inbox_row "first" prompted ∷ inbox_row "second" queued ∷ inbox_row "third" queued ∷ [];
  turns = turn_row ∷ [];
  turn_inputs =
      (record {
        turn_id = "turn-1";
        event_id = "first";
        role = primary;
        ordinal = 0;
        delivery_state = delivered;
        delivered_at = some 161;
      })
      ∷ [];
  output_intents = [];
  outbox = out_row ∷ [];
}

abbrev pub session : Session
session = record { session_id = "session-1" }

abbrev pub turn_args : CreateTurnContextArgs
turn_args = record {
  turn_id = "turn-1";
  channel_id = "channel";
  thread_root_event_id = hex_id;
  primary_trigger_event_id = "first";
  primary_author_pubkey = "alice";
  started_at_ms = 160;
  primary_created_at = 100;
}

abbrev pub active_turn : ActiveTurn
active_turn = record {
  context = create_turn_context turn_args;
  conversation = conversation_key "relay" "channel" hex_id;
  last_activity_ms = 160;
  started_ms = 160;
  last_assistant_text = none;
}

abbrev pub flying : Actor
flying = record {
  state = ActorState.running;
  turn = some active_turn;
  session = some session;
  session_thread_root_id = some hex_id;
  subscribed = true;
  watermarks = [];
  queue = [];
  stale_settles = 0;
  permits = 1;
  watches = 1;
  db = db;
  ordinals = [];
  notified = 0;
  effects = [];
}

-- The same with a message in the queue.
abbrev pub crowded : Actor
crowded = record flying { queue = accepted "second" ∷ [] }
