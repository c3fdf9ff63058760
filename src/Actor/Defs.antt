-- ===== src/Actor/Defs.antt =====
-- The state of `ChannelActor` in src/runtime/channel-actor.ts, its messages, what it hears from the
-- parts it calls, and what it asks of them. `db` and `ordinals` are the state that it shares with
-- src/state/ and src/runtime/output-router.ts.
use autogent.Prelude.{ℕ, String, Bool, Option, List, none, []}
use autogent.Utf16.{Utf16}
use autogent.Nostr.{NostrEvent}
use autogent.State.Rows.{Db}
use autogent.Turn.{TurnContext}
use autogent.Output.Router.{OutputConfig, Draft}

pub data ActorState : Type 0 where
  idle starting running settling closed : ActorState

pub record AcceptedEvent : Type 0 where
  pub event : NostrEvent
  pub prompt_tag : String

-- The counters that a provider reports; its cost is not modelled.
pub record PiUsage : Type 0 where
  pub input : Option ℕ
  pub output : Option ℕ
  pub total : Option ℕ
  pub cache_read : Option ℕ
  pub cache_write : Option ℕ

-- Pi's events, less the fields that are arbitrary JSON.
pub data PiEvent : Type 0 where
  agent_start : Bool → PiEvent
  turn_start : PiEvent
  text_delta : String → Utf16 → PiEvent
  thinking_delta : String → Utf16 → PiEvent
  message_end : String → String → Utf16 → Option PiUsage → PiEvent
  tool_start : String → String → PiEvent
  tool_update : String → Utf16 → PiEvent
  tool_end : String → Bool → Utf16 → PiEvent
  retry : ℕ → ℕ → Utf16 → PiEvent
  compaction : Bool → String → PiEvent
  agent_end : Bool → PiEvent
  agent_settled : PiEvent
  diagnostic : String → PiEvent

pub data Mailbox : Type 0 where
  inbound : AcceptedEvent → Mailbox
  pi : PiEvent → Mailbox
  cancel : String → Mailbox
  rotate : Mailbox
  close : Mailbox

pub record HistoryMessage : Type 0 where
  pub event_id : String
  pub created_at : ℕ

pub record Session : Type 0 where
  pub session_id : String

-- What `acquireSession` resolves to: the session, and the history that seeded it if the registry
-- created it and so ran the seed callback.
pub record Acquired : Type 0 where
  pub session : Session
  pub seeded : Option (List HistoryMessage)

-- The answers that the handling of one message gets. `acquired` is `none` where the promise is
-- rejected, `steer_taken` is false where Pi rejects the steer.
pub record Env : Type 0 where
  pub now : ℕ
  pub now_after : ℕ
  pub new_turn_id : String
  pub session_disposed : Bool
  pub context_window : Option ℕ
  pub acquired : Option Acquired
  pub fetch_delta : Option ℕ → List HistoryMessage
  pub injected : HistoryMessage → Bool
  pub steer_taken : Bool

-- What the actor has asked of the session, the telemetry and the usage tracker, in order.
pub data Effect : Type 0 where
  session_resolved : String → Effect
  context_injected : String → String → Effect
  turn_started : String → String → String → Effect
  prompted : String → String → String → Effect
  steered : String → String → String → Effect
  transcript : String → PiEvent → Effect
  usage_observed : String → String → PiUsage → Effect
  usage_frame : String → ℕ → ℕ → Effect
  usage_published : String → String → Effect
  turn_completed : String → Effect
  turn_error : String → String → Effect
  aborted : String → Effect
  sessions_released : Effect

pub record ActiveTurn : Type 0 where
  pub context : TurnContext
  pub conversation : String
  pub last_activity_ms : ℕ
  pub started_ms : ℕ
  pub last_assistant_text : Option Utf16

-- `permits` counts the concurrency permits that were acquired and not released, `watches` the idle
-- watches and liveness heartbeats that run.
pub record Actor : Type 0 where
  pub state : ActorState
  pub turn : Option ActiveTurn
  pub session : Option Session
  pub session_thread_root_id : Option String
  pub subscribed : Bool
  pub watermarks : List (String × ℕ)
  pub queue : List AcceptedEvent
  pub stale_settles : ℕ
  pub permits : ℕ
  pub watches : ℕ
  pub db : Db
  pub ordinals : List (String × ℕ)
  pub notified : ℕ
  pub effects : List Effect

-- What an actor is built with.
pub record Deps : Type 0 where
  pub relay_id : String
  pub channel_id : String
  pub output : OutputConfig
  pub build : Draft → NostrEvent
  pub idle_timeout_ms : ℕ
  pub max_turn_duration_ms : ℕ

unfoldable pub create : Db → Actor
create db = record {
  state = idle;
  turn = none;
  session = none;
  session_thread_root_id = none;
  subscribed = Bool.false;
  watermarks = [];
  queue = [];
  stale_settles = 0;
  permits = 0;
  watches = 0;
  db = db;
  ordinals = [];
  notified = 0;
  effects = [];
}

-- `threadRootId ?? ""`
abbrev pub watermark_key : Option String → String
watermark_key none = ""
watermark_key (Option.some root) = root
