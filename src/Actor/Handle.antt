-- ===== src/Actor/Handle.antt =====
-- The handlers of src/runtime/channel-actor.ts, one for each kind of message, and the pump.
use autogent.Prelude.{
  ℕ, zero, suc, ◌+◌, ◌-◌, String, Bool, true, false, ◌&&◌, not, Option, none, some, List, [], ◌∷◌,
  ◌++◌, ◌==◌, leb, if◌then◌else◌,
}
use autogent.Exec.{Result, ok, err, Exec, ◌>>◌, modify}
use autogent.Utf16.{Utf16}
use autogent.State.Rows.{TurnState}
use autogent.State.Turns
use autogent.Thread.{canonical_thread_root, conversation_key}
use autogent.Output.Router.{record_output}
use autogent.Actor.Defs.{
  ActorState, idle, running, settling, closed, AcceptedEvent, PiUsage, PiEvent, message_end,
  agent_end, agent_settled, Mailbox, inbound, pi, cancel, rotate, close, Session, Env, transcript,
  usage_observed, usage_frame, aborted, sessions_released, ActiveTurn, Actor, Deps,
}
use autogent.Actor.Session.{emit}
use autogent.Actor.Turns.{start_turn, steer_turn, enqueue, settle}

abbrev pub in_flight : ActorState → Bool
in_flight running = true
in_flight settling = true
in_flight _ = false

abbrev pub is_idle : ActorState → Bool
is_idle idle = true
is_idle _ = false

-- A turn of this conversation that can still be joined.
abbrev pub steerable : String → Option ActiveTurn → ActorState → Bool
steerable key none s = false
steerable key (some turn) s = in_flight s && turn.conversation == key

unfoldable pub on_inbound : Deps → Env → AcceptedEvent → Exec Actor Unit
on_inbound deps env accepted a =
    let root = canonical_thread_root accepted.event in
    let key = conversation_key deps.relay_id deps.channel_id root in
    if steerable key a.turn a.state
    then steer_turn env accepted a
    else if is_idle a.state
    then start_turn deps env accepted root a
    else (ok tt, enqueue accepted none a)

abbrev add_known : Option ℕ → Option ℕ → Option ℕ
add_known none b = b
add_known (some a) none = some a
add_known (some a) (some b) = some (a + b)

-- `sumUsageCounters`: null where no part is known.
unfoldable pub sum_usage_counters : PiUsage → Option ℕ
sum_usage_counters u = add_known u.input (add_known u.output (add_known u.cache_read u.cache_write))

abbrev used_of : Option ℕ → PiUsage → Option ℕ
used_of none u = sum_usage_counters u
used_of (some n) u = some n

frame_of : String → Option ℕ → Option ℕ → Actor → Actor
frame_of turn (some used) (some size) a = emit (usage_frame turn used size) a
frame_of turn _ _ a = a

-- `usageFrameFor`, and the frame that it makes.
unfoldable pub observe_usage : Env → ActiveTurn → Option PiUsage → Option Session → Actor → Actor
unfolding frame_of sum_usage_counters
observe_usage env turn (some usage) (some s) a =
    frame_of turn.context.turn_id (used_of usage.total usage) env.context_window
      (emit (usage_observed s.session_id turn.context.turn_id usage) a)
observe_usage env turn _ _ a = a

abbrev without_value {ℓ} : {A : Type ℓ} → Result A → Result (Unit {0})
without_value (ok x) = ok tt
without_value (err e) = err e

-- `record` of the output router, on the state that it shares with the actor.
unfoldable pub record_text : Deps → Env → ActiveTurn → String → Utf16 → Exec Actor Unit
record_text deps env turn message text a =
    let (r, out) =
      record_output deps.build env.now deps.output turn.context message text
        (record { db = a.db; ordinals = a.ordinals; notified = a.notified }) in
    (without_value r, record a { db = out.db; ordinals = out.ordinals; notified = out.notified })

-- An assistant message of the running turn.
unfoldable pub on_message_end :
    Deps → Env → String → String → Utf16 → Option PiUsage → Option ActiveTurn → Exec Actor Unit
on_message_end deps env message role text usage none a = (ok tt, a)
on_message_end deps env message role text usage (some turn) a =
    if role == "assistant"
    then (do
      modify (λ b. record b { turn = some (record turn { last_assistant_text = some text }) })
      record_text deps env turn message text
      modify (λ b. observe_usage env turn usage b.session b))
        a
    else (ok tt, a)

-- `agent_end` does not end the turn: a retry may follow.
unfoldable pub on_agent_end : Env → Bool → Option ActiveTurn → Actor → Actor
on_agent_end env true turn a = a
on_agent_end env false none a = a
on_agent_end env false (some turn) a = record a {
  state = settling;
  db = Turns.set_state turn.context.turn_id TurnState.settling none env.now a.db;
}

-- The settle of a run that the actor closed out itself is not that of the present turn.
unfoldable pub on_settled : Deps → Env → ℕ → Exec Actor Unit
on_settled deps env zero a = settle deps env "end_turn" a
on_settled deps env (suc n) a = (ok tt, record a { stale_settles = n })

unfoldable pub on_event : Deps → Env → PiEvent → Exec Actor Unit
unfolding on_message_end on_agent_end on_settled
on_event deps env (message_end message role text usage) a =
    on_message_end deps env message role text usage a.turn a
on_event deps env (agent_end will_retry) a = (ok tt, on_agent_end env will_retry a.turn a)
on_event deps env agent_settled a = on_settled deps env a.stale_settles a
on_event deps env _ a = (ok tt, a)

-- An event of a turn is activity, and goes to the owner's transcript.
unfoldable pub note_event : Env → PiEvent → Option ActiveTurn → Actor → Actor
note_event env event none a = a
note_event env event (some turn) a =
    emit (transcript turn.context.turn_id event)
      (record a { turn = some (record turn { last_activity_ms = env.now }) })

unfoldable pub on_pi_event : Deps → Env → PiEvent → Exec Actor Unit
unfolding on_event note_event
on_pi_event deps env event a = on_event deps env event (note_event env event a.turn a)

unfoldable pub cancel_with :
    Deps → Env → String → Option ActiveTurn → Option Session → Exec Actor Unit
cancel_with deps env reason (some turn) (some s) a =
    settle deps env reason
      (record (emit (aborted s.session_id) a) { stale_settles = suc a.stale_settles })
cancel_with deps env reason _ _ a = (ok tt, a)

unfoldable pub on_cancel : Deps → Env → String → Exec Actor Unit
unfolding cancel_with
on_cancel deps env reason a = cancel_with deps env reason a.turn a.session a

unfoldable pub on_rotate : Deps → Env → Exec Actor Unit
on_rotate deps env a =
    (do
      on_cancel deps env "rotated"
      modify (λ b. emit sessions_released (record b {
        subscribed = false;
        session = none;
        session_thread_root_id = none;
        watermarks = [];
      })))
      a

unfoldable pub cancel_running : Deps → Env → Option ActiveTurn → Exec Actor Unit
cancel_running deps env none a = (ok tt, a)
cancel_running deps env (some turn) a = on_cancel deps env "shutdown" a

unfoldable pub on_close : Deps → Env → Exec Actor Unit
unfolding cancel_running
on_close deps env a =
    (do
      cancel_running deps env a.turn
      modify (λ b. record b { subscribed = false; state = closed }))
      a

unfoldable pub handle : Deps → Env → Mailbox → Exec Actor Unit
handle deps env (inbound accepted) = on_inbound deps env accepted
handle deps env (pi event) = on_pi_event deps env event
handle deps env (cancel reason) = on_cancel deps env reason
handle deps env rotate = on_rotate deps env
handle deps env close = on_close deps env

abbrev pub is_closed : ActorState → Bool
is_closed closed = true
is_closed _ = false

abbrev is_close : Mailbox → Bool
is_close close = true
is_close _ = false

-- One round of `#pump`: an error of a handler is logged and ends only its own message.
unfoldable pub deliver : Deps → Env → Mailbox → Actor → Actor
deliver deps env message a = (handle deps env message a).1

-- The actor and its mailbox.
pub record Mailroom : Type 0 where
  pub actor : Actor
  pub mailbox : List Mailbox

-- `#post`: a closed actor takes no message but `close`.
unfoldable pub post : Mailbox → Mailroom → Mailroom
post message m =
    if is_closed m.actor.state && not (is_close message)
    then m
    else record m { mailbox = m.mailbox ++ message ∷ [] }

unfoldable pub pump_first : Deps → Env → List Mailbox → Mailroom → Mailroom
pump_first deps env [] m = m
pump_first deps env (message ∷ rest) m = record {
  actor = deliver deps env message m.actor;
  mailbox = rest;
}

unfoldable pub pump : Deps → Env → Mailroom → Mailroom
unfolding pump_first
pump deps env m = pump_first deps env m.mailbox m

-- What the event loop does next: somebody posts, or the pump takes the next message. A message is
-- handled to its end before the next, and posts may come at any time in between.
pub data Step : Type 0 where
  posted : Mailbox → Step
  pumped : Env → Step

unfoldable pub step : Deps → Step → Mailroom → Mailroom
step deps (posted message) m = post message m
step deps (pumped env) m = pump deps env m

unfoldable pub run : Deps → List Step → Mailroom → Mailroom
run deps [] m = m
run deps (s ∷ rest) m = run deps rest (step deps s m)

-- The reason for which the idle watch cancels the turn, if it does.
unfoldable pub watch_idle : Deps → ℕ → Actor → Option String
watch_idle deps now a = elim a.turn [
  | none ↦ none
  | some turn ↦
      if leb deps.idle_timeout_ms (now - turn.last_activity_ms)
      then some "idle_timeout"
      else if leb deps.max_turn_duration_ms (now - turn.started_ms)
      then some "max_duration"
      else none
]
