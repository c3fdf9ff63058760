-- ===== src/Actor/Branches.antt =====
-- Which function each branch of a handler of src/runtime/channel-actor.ts comes down to.
use autogent.Prelude.{suc, ◌≡◌, String, true, some, List, ◌∷◌, arith, eq_iff}
use autogent.Thread.{canonical_thread_root, conversation_key}
use autogent.Actor.Defs.{idle, Actor, ActiveTurn, AcceptedEvent, Env, Deps, Session, aborted}
use autogent.Actor.Session.{emit}
use autogent.Actor.Turns.{
  start_turn, steer_turn, steer_into, dispatch, dispatch_queued, close_turn, settle_turn, settle,
}
use autogent.Actor.Handle.{in_flight, on_inbound, cancel_with, on_cancel}

-- The actor when a cancelled turn is closed and `next` has left the queue.
abbrev pub cancelled_before :
    Env → String → ActiveTurn → Session → List AcceptedEvent → Actor → Actor
cancelled_before env reason t s rest a =
    record (close_turn env reason t
      (record (emit (aborted s.session_id) a) { stale_settles = suc a.stale_settles })) {
        queue = rest;
      }

module _ (deps : Deps) (env : Env) where
  pub on_inbound_idle :
      (accepted : AcceptedEvent) (a : Actor)
      → a.state ≡ idle
      → on_inbound deps env accepted a
        ≡ start_turn deps env accepted (canonical_thread_root accepted.event) a
  unfolding on_inbound
  on_inbound_idle accepted a i = ground arith

  pub on_inbound_steered :
      (accepted : AcceptedEvent) (t : ActiveTurn) (s : Session) (a : Actor)
      → a.turn ≡ some t
      → a.session ≡ some s
      → in_flight a.state ≡ true
      → t.conversation
        ≡ conversation_key deps.relay_id deps.channel_id (canonical_thread_root accepted.event)
      → on_inbound deps env accepted a ≡ steer_into env accepted (some t) (some s) a
  unfolding on_inbound steer_turn
  on_inbound_steered accepted t s a et es f c = ground (
    arith,
    eq_iff t.conversation
        (conversation_key deps.relay_id deps.channel_id (canonical_thread_root accepted.event)),
  )

  pub on_cancel_next :
      (reason : String) (t : ActiveTurn) (s : Session) (next : AcceptedEvent)
      (rest : List AcceptedEvent) (a : Actor)
      → a.turn ≡ some t
      → a.session ≡ some s
      → a.queue ≡ next ∷ rest
      → on_cancel deps env reason a
        ≡ start_turn deps env next
            (canonical_thread_root next.event)
            (cancelled_before env reason t s rest a)
  unfolding on_cancel cancel_with settle settle_turn dispatch_queued dispatch close_turn
  on_cancel_next reason t s next rest a et es eq = ground arith
