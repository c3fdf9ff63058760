-- ===== src/Actor/Turns.antt =====
-- How a turn starts, is steered and ends in src/runtime/channel-actor.ts.
use autogent.Prelude.{
  suc, ◌-◌, String, Option, none, some, List, [], ◌∷◌, ◌++◌, length, ◌==◌, if◌then◌else◌,
}
use autogent.Exec.{Result, ok, Exec, ◌>>=◌, ◌>>◌, modify, transaction}
use autogent.Nostr.{NostrEvent}
use autogent.State.Rows.{
  queued, prompted, steer_pending, steer_delivered, TurnState, created, completed, primary, steer,
  Db,
}
use autogent.State.Inbox
use autogent.State.Turns
use autogent.Thread.{canonical_thread_root, conversation_key}
use autogent.Turn.{TurnContext, create_turn_context, with_steering_input}
use autogent.Output.Router.{finish_turn}
use autogent.Actor.Defs.{
  ActorState, idle, starting, running, closed, AcceptedEvent, Env, Session, Effect, turn_started,
  prompted as prompted_effect, steered, turn_completed, turn_error, usage_published, ActiveTurn,
  Actor, Deps, watermark_key,
}
use autogent.Actor.Session.{emit, ensure_session, note_watermark, fold_history}

abbrev pub in_db : {A : Type 0} → Exec Db A → Exec Actor A
in_db m a = let (r, db') = m a.db in (r, record a { db = db' })

abbrev pub lift_db : (Db → Db) → Db → Result (Unit {0}) × Db
lift_db f db = (ok tt, f db)

-- `threadRootId === event.id ? null : threadRootId`
abbrev pub session_thread : String → String → Option String
session_thread root id = if root == id then none else some root

-- The rows of a new turn, in one transaction.
unfoldable pub store_turn : Deps → Env → NostrEvent → String → Exec Db Unit
store_turn deps env event root = transaction (do
  Turns.create (record {
    turn_id = env.new_turn_id;
    channel_id = deps.channel_id;
    thread_root_id = root;
    primary_trigger_event_id = event.id;
    primary_author_pubkey = event.pubkey;
    state = created;
    started_at = env.now;
    settled_at = none;
    stop_reason = none;
  })
  Turns.add_input env.new_turn_id event.id primary 0
  lift_db (Inbox.assign_to_turn event.id env.new_turn_id 0 prompted))

unfoldable pub new_context : Deps → Env → NostrEvent → String → TurnContext
new_context deps env event root = create_turn_context (record {
  turn_id = env.new_turn_id;
  channel_id = deps.channel_id;
  thread_root_event_id = root;
  primary_trigger_event_id = event.id;
  primary_author_pubkey = event.pubkey;
  started_at_ms = env.now;
  primary_created_at = event.created_at;
})

-- From the moment the session has the history: the turn is there and its prompt is sent.
unfoldable pub launch : Deps → Env → NostrEvent → String → Session → Actor → Actor
launch deps env event root s a =
    let b = note_watermark (watermark_key (session_thread root event.id)) event.created_at a in
    record b {
      turn = some (record {
        context = new_context deps env event root;
        conversation = conversation_key deps.relay_id deps.channel_id root;
        last_activity_ms = env.now;
        started_ms = env.now_after;
        last_assistant_text = none;
      });
      watches = suc b.watches;
      state = running;
      db =
          Turns.mark_input_delivered env.new_turn_id event.id env.now_after
            (Turns.set_state env.new_turn_id TurnState.running none env.now_after b.db);
      effects =
          b.effects
          ++ turn_started s.session_id env.new_turn_id event.id
            ∷ prompted_effect s.session_id env.new_turn_id event.id
            ∷ [];
    }

-- The part of `#startTurn` from the session on.
unfoldable pub open_session : Deps → Env → AcceptedEvent → String → Exec Actor Unit
open_session deps env accepted root a =
    (do
      got ← ensure_session (session_thread root accepted.event.id) env
      modify (fold_history (watermark_key (session_thread root accepted.event.id)) got.0 env got.1)
      modify (launch deps env accepted.event root got.0))
      a

unfoldable pub start_turn : Deps → Env → AcceptedEvent → String → Exec Actor Unit
start_turn deps env accepted root a =
    (do
      modify (λ b. record b { state = starting })
      in_db (store_turn deps env accepted.event root)
      modify (λ b. record b { permits = suc b.permits })
      open_session deps env accepted root)
      a

-- The event waits for a turn of its own.
unfoldable pub enqueue : AcceptedEvent → Option (Option String) → Actor → Actor
enqueue accepted turn a = record a {
  db = Inbox.set_disposition accepted.event.id queued turn a.db;
  queue = a.queue ++ accepted ∷ [];
}

unfoldable pub steer_taken : Env → NostrEvent → ActiveTurn → Session → Actor → Actor
steer_taken env event turn s a =
    let b = note_watermark (watermark_key a.session_thread_root_id) event.created_at (record a {
      turn = some (record turn {
        context = with_steering_input turn.context (record {
          event_id = event.id;
          author_pubkey = event.pubkey;
          created_at = event.created_at;
        });
        last_activity_ms = env.now_after;
      });
    }) in
    emit (steered s.session_id turn.context.turn_id event.id) (record b {
      db =
          Turns.mark_input_delivered turn.context.turn_id event.id env.now_after
            (Inbox.set_disposition event.id steer_delivered none b.db);
    })

-- The durable marker of a steer, written before the handoff.
unfoldable pub store_steer : NostrEvent → ActiveTurn → Exec Db Unit
store_steer event turn = transaction (do
  Turns.add_input turn.context.turn_id event.id steer (length turn.context.inputs)
  lift_db (
      Inbox.assign_to_turn event.id turn.context.turn_id (length turn.context.inputs)
        steer_pending))

unfoldable pub steer_into :
    Env → AcceptedEvent → Option ActiveTurn → Option Session → Exec Actor Unit
steer_into env accepted (some turn) (some s) a =
    (do
      in_db (store_steer accepted.event turn)
      modify (
          if env.steer_taken
          then steer_taken env accepted.event turn s
          else enqueue accepted (some none)))
      a
steer_into env accepted _ _ a = (ok tt, enqueue accepted none a)

unfoldable pub steer_turn : Env → AcceptedEvent → Exec Actor Unit
unfolding steer_into
steer_turn env accepted a = steer_into env accepted a.turn a.session a

-- Promotes the oldest queued event into a fresh turn.
unfoldable pub dispatch : Deps → Env → List AcceptedEvent → Exec Actor Unit
dispatch deps env [] a = (ok tt, a)
dispatch deps env (next ∷ rest) a =
    start_turn deps env next (canonical_thread_root next.event) (record a { queue = rest })

unfoldable pub dispatch_queued : Deps → Env → Exec Actor Unit
unfolding dispatch
dispatch_queued deps env a = dispatch deps env a.queue a

abbrev pub stop_effect : String → String → Effect
stop_effect turn reason =
    if reason == "end_turn" then turn_completed turn else turn_error turn reason

-- What closing a turn does before the queue moves on.
unfoldable pub close_turn : Env → String → ActiveTurn → Actor → Actor
unfolding finish_turn
close_turn env reason turn a =
    let out =
      finish_turn turn.context.turn_id
        (record { db = a.db; ordinals = a.ordinals; notified = a.notified }) in
    record a {
      turn = none;
      state = idle;
      watches = a.watches - 1;
      permits = a.permits - 1;
      ordinals = out.ordinals;
      db =
          Inbox.complete_turn_inputs turn.context.turn_id
            (Turns.set_state turn.context.turn_id completed (some (some reason)) env.now a.db);
      effects =
          a.effects
          ++ usage_published turn.context.turn_id reason
            ∷ stop_effect turn.context.turn_id reason
            ∷ [];
    }

abbrev pub idle_unless_closed : ActorState → ActorState
idle_unless_closed closed = closed
idle_unless_closed _ = idle

unfoldable pub settle_turn : Deps → Env → String → Option ActiveTurn → Exec Actor Unit
settle_turn deps env reason none a = (ok tt, record a { state = idle_unless_closed a.state })
settle_turn deps env reason (some turn) a = dispatch_queued deps env (close_turn env reason turn a)

unfoldable pub settle : Deps → Env → String → Exec Actor Unit
unfolding settle_turn
settle deps env reason a = settle_turn deps env reason a.turn a
