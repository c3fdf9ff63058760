-- ===== src/Actor/Start.antt =====
-- The two ends of `#startTurn` in src/runtime/channel-actor.ts: the turn is launched, or an error
-- leaves the actor in `starting` without a turn.
use autogent.Prelude.{suc, ◌≡◌, refl, ◌∙◌, ap, ◌⊎◌, inl, inr, String, Option, some, List, arith}
use autogent.Exec.{Result, ok, err}
use autogent.Nostr.{NostrEvent}
use autogent.State.Rows.{Db}
use autogent.Thread.{conversation_key}
use autogent.Actor.Defs.{
  starting, running, Actor, ActiveTurn, AcceptedEvent, Env, Deps, Session, HistoryMessage,
  watermark_key,
}
use autogent.Actor.Session.{ensure_session, note_watermark}
use autogent.Actor.Frame.{
  SameTurn, SameTurn-trans, ensure_session-SameTurn, fold_history-SameTurn, note_watermark-SameTurn,
}
use autogent.Actor.Turns.{store_turn, new_context, launch, start_turn, open_session, session_thread}

-- The turn that a start of this event makes.
pub record IsFreshTurn (deps : Deps) (env : Env) (event : NostrEvent) (root : String)
    (t : ActiveTurn) : Type 0 where
  pub context : t.context ≡ new_context deps env event root
  pub conversation : t.conversation ≡ conversation_key deps.relay_id deps.channel_id root

pub record Launched (deps : Deps) (env : Env) (event : NostrEvent) (root : String) (a b : Actor)
    : Type 0 where
  pub state : b.state ≡ running
  pub turn : (t : ActiveTurn) × (b.turn ≡ some t) × IsFreshTurn deps env event root t
  pub queue : b.queue ≡ a.queue
  pub stale_settles : b.stale_settles ≡ a.stale_settles
  pub permits : b.permits ≡ suc a.permits
  pub watches : b.watches ≡ suc a.watches

-- A start that threw: nothing but the state, and perhaps a permit, shows it.
pub record Stranded (a b : Actor) : Type 0 where
  pub state : b.state ≡ starting
  pub turn : b.turn ≡ a.turn
  pub queue : b.queue ≡ a.queue
  pub stale_settles : b.stale_settles ≡ a.stale_settles
  pub permits : (b.permits ≡ a.permits) ⊎ (b.permits ≡ suc a.permits)
  pub watches : b.watches ≡ a.watches

launch-Launched :
    (deps : Deps) (env : Env) (event : NostrEvent) (root : String) (s : Session) (a b : Actor)
    {d : Db}
    → SameTurn (record a { state = starting; permits = suc a.permits; db = d }) b
    → Launched deps env event root a (launch deps env event root s b)
unfolding launch
launch-Launched deps env event root s a b h =
    let c = note_watermark (watermark_key (session_thread root event.id)) event.created_at b in
    let k =
      note_watermark-SameTurn (watermark_key (session_thread root event.id)) event.created_at b in
    record {
      state = refl;
      turn = (_, refl, record { context = refl; conversation = refl });
      queue = k.queue ∙ h.queue;
      stale_settles = k.stale_settles ∙ h.stale_settles;
      permits = k.permits ∙ h.permits;
      watches = ap suc (k.watches ∙ h.watches);
    }

module _ (deps : Deps) (env : Env) (accepted : AcceptedEvent) (root : String) (a : Actor) where
  abbrev pub Outcome : Result (Unit {0}) × Actor → Type 0
  Outcome p = ((p.0 ≡ ok tt) × Launched deps env accepted.event root a p.1) ⊎ Stranded a p.1

  -- The actor when the rows are stored and a permit is held.
  abbrev ready : Db → Actor
  ready db = record a { state = starting; permits = suc a.permits; db = db }

  abbrev thread : Option String
  thread = session_thread root accepted.event.id

  after_session :
      (db : Db) (g : Result (Session × Option (List HistoryMessage)) × Actor)
      → ensure_session thread env (ready db) ≡ g
      → SameTurn (ready db) g.1
      → Outcome (open_session deps env accepted root (ready db))
  unfolding open_session
  after_session db (err x, c) e h = rw e (inr (ground arith))
  after_session db (ok (s, seeded), c) e h = rw e (
      inl (
        refl,
        launch-Launched deps env accepted.event root s a _ (
            SameTurn-trans (ready db) c _ h
              (fold_history-SameTurn (watermark_key thread) s env seeded c)),
      ))

  start_after :
      (p : Result (Unit {0}) × Db)
      → store_turn deps env accepted.event root a.db ≡ p
      → Outcome (start_turn deps env accepted root a)
  unfolding start_turn
  start_after (err x, db) e = rw e (inr (ground arith))
  start_after (ok u, db) e = rw e (
      after_session db (ensure_session thread env (ready db)) refl
        (ensure_session-SameTurn thread env (ready db)))

  -- A start either launches the event's turn or strands the actor.
  pub start_turn-Outcome : Outcome (start_turn deps env accepted root a)
  start_turn-Outcome = start_after (store_turn deps env accepted.event root a.db) refl
