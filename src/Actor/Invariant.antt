-- ===== src/Actor/Invariant.antt =====
-- What holds of a channel actor between two messages.
use autogent.Prelude.{
  ◌==◌, ℕ, zero, suc, ◌≤◌, ◌≡◌, refl, inl, inr, String, true, Option, none, some, List, [], ◌∷◌,
  arith, Bool-cases,
}
use autogent.Exec.{Result, ok, err, ◌>>=◌, modify}
use autogent.Utf16.{Utf16}
use autogent.State.Rows.{Db}
use autogent.Thread.{canonical_thread_root, conversation_key}
use autogent.Actor.Defs.{
  idle, starting, Actor, ActiveTurn, AcceptedEvent, Env, Deps, Session, PiEvent, PiUsage,
  message_end, agent_end, agent_settled, Mailbox, inbound, pi, cancel, rotate, close, create,
  watermark_key,
}
use autogent.Turn.{with_steering_input}
use autogent.Actor.Frame.{note_watermark-SameTurn}
use autogent.Actor.Start.{start_turn-Outcome}
use autogent.Actor.Turns.{
  start_turn, enqueue, steer_taken, steer_into, steer_turn, store_steer, dispatch, dispatch_queued,
  close_turn, settle_turn, settle,
}
use autogent.Actor.Handle.{
  in_flight, is_idle, steerable, on_inbound, observe_usage, record_text, on_message_end, on_settled,
  on_event, note_event, on_pi_event, cancel_with, on_cancel, on_rotate, on_close, handle, deliver,
  Mailroom, post, pump, pump_first, Step, posted, pumped, step, run,
}

abbrev pub turns_of : Option ActiveTurn → ℕ
turns_of none = 0
turns_of (some t) = 1

-- A turn runs in `running` and `settling`, and in no state before them; its watches run with it,
-- and it holds a permit.
pub record IsConsistent (a : Actor) : Type 0 where
  pub idle_free : a.state ≡ idle → a.turn ≡ none
  pub starting_free : a.state ≡ starting → a.turn ≡ none
  pub flight_turn : in_flight a.state ≡ true → turns_of a.turn ≡ 1
  pub watches_turn : a.watches ≡ turns_of a.turn
  pub permits_turn : turns_of a.turn ≤ a.permits

module _ (deps : Deps) (env : Env) where
  start_turn-IsConsistent :
      (accepted : AcceptedEvent) (root : String) (a : Actor)
      → a.turn ≡ none
      → a.watches ≡ 0
      → IsConsistent (start_turn deps env accepted root a).1
  start_turn-IsConsistent accepted root a e w = elim (start_turn-Outcome deps env accepted root a) [
    | inl l ↦ ground (arith, l.1, l.1.turn)
    | inr s ↦ ground arith
  ]

  enqueue-IsConsistent :
      (accepted : AcceptedEvent) (t : Option (Option String)) (a : Actor)
      → IsConsistent a
      → IsConsistent (enqueue accepted t a)
  unfolding enqueue
  enqueue-IsConsistent accepted t a h = ground arith

  steer_taken-IsConsistent :
      (accepted : AcceptedEvent) (t : ActiveTurn) (s : Session) (a : Actor)
      → a.turn ≡ some t
      → IsConsistent a
      → IsConsistent (steer_taken env accepted.event t s a)
  unfolding steer_taken
  steer_taken-IsConsistent accepted t s a e h = ground (
    arith,
    note_watermark-SameTurn (watermark_key a.session_thread_root_id) accepted.event.created_at
        (record a {
          turn = some (record t {
            context = with_steering_input t.context (record {
              event_id = accepted.event.id;
              author_pubkey = accepted.event.pubkey;
              created_at = accepted.event.created_at;
            });
            last_activity_ms = env.now_after;
          });
        }),
  )

  after_store :
      (accepted : AcceptedEvent) (t : ActiveTurn) (s : Session) (a : Actor)
      (p : Result (Unit {0}) × Db)
      → store_steer accepted.event t a.db ≡ p
      → a.turn ≡ some t
      → IsConsistent a
      → IsConsistent (steer_into env accepted (some t) (some s) a).1
  unfolding steer_into steer_taken
  after_store accepted t s a (err x, db) p e h = rw p (ground arith)
  after_store accepted t s a (ok u, db) p e h = rw p (elim (Bool-cases env.steer_taken) [
    | inl y ↦ rw y (steer_taken-IsConsistent accepted t s (record a { db = db }) e (ground arith))
    | inr n ↦ rw n (enqueue-IsConsistent accepted (some none) (record a { db = db }) (ground arith))
  ])

  steer_into-IsConsistent :
      (accepted : AcceptedEvent) (t : Option ActiveTurn) (s : Option Session) (a : Actor)
      → a.turn ≡ t
      → IsConsistent a
      → IsConsistent (steer_into env accepted t s a).1
  unfolding steer_into
  steer_into-IsConsistent accepted none s a e h = enqueue-IsConsistent accepted none a h
  steer_into-IsConsistent accepted (some t) none a e h = enqueue-IsConsistent accepted none a h
  steer_into-IsConsistent accepted (some t) (some s) a e h =
      after_store accepted t s a (store_steer accepted.event t a.db) refl e h

  dispatch-IsConsistent :
      (q : List AcceptedEvent) (a : Actor)
      → a.turn ≡ none
      → a.watches ≡ 0
      → IsConsistent a
      → IsConsistent (dispatch deps env q a).1
  unfolding dispatch
  dispatch-IsConsistent [] a e w h = h
  dispatch-IsConsistent (next ∷ rest) a e w h =
      start_turn-IsConsistent next (canonical_thread_root next.event) (record a { queue = rest }) e
        w

  settle_turn-IsConsistent :
      (reason : String) (t : Option ActiveTurn) (a : Actor)
      → a.turn ≡ t
      → IsConsistent a
      → IsConsistent (settle_turn deps env reason t a).1
  unfolding settle_turn dispatch_queued close_turn
  settle_turn-IsConsistent reason none a e h = ground arith
  settle_turn-IsConsistent reason (some t) a e h =
      dispatch-IsConsistent a.queue (close_turn env reason t a) refl (ground arith) (ground arith)

  on_inbound-IsConsistent :
      (accepted : AcceptedEvent) (a : Actor)
      → IsConsistent a
      → IsConsistent (on_inbound deps env accepted a).1
  unfolding on_inbound steer_turn
  on_inbound-IsConsistent accepted a h =
      let root = canonical_thread_root accepted.event in
      elim (Bool-cases
        (steerable (conversation_key deps.relay_id deps.channel_id root) a.turn a.state)) [
          | inl y ↦ rw y (steer_into-IsConsistent accepted a.turn a.session a refl h)
          | inr n ↦ rw n (elim (Bool-cases (is_idle a.state)) [
            | inl y ↦ rw y (start_turn-IsConsistent accepted root a (ground arith) (ground arith))
            | inr k ↦ rw k (enqueue-IsConsistent accepted none a h)
          ])
        ]

  observe_usage-IsConsistent :
      (t : ActiveTurn) (usage : Option PiUsage) (s : Option Session) (a : Actor)
      → IsConsistent a
      → IsConsistent (observe_usage env t usage s a)
  unfolding observe_usage
  observe_usage-IsConsistent t none s a h = h
  observe_usage-IsConsistent t (some u) none a h = h
  observe_usage-IsConsistent t (some u) (some s) a h = ground arith

  record_text-IsConsistent :
      (t : ActiveTurn) (message : String) (text : Utf16) (a : Actor)
      → IsConsistent a
      → IsConsistent (record_text deps env t message text a).1
  unfolding record_text
  record_text-IsConsistent t message text a h = ground arith

  after_record :
      (t : ActiveTurn) (usage : Option PiUsage) (message : String) (text : Utf16) (a : Actor)
      (p : Result (Unit {0}) × Actor)
      → record_text deps env t message text a ≡ p
      → IsConsistent p.1
      → IsConsistent
          ((record_text deps env t message text >>= λ _.
              modify (λ b. observe_usage env t usage b.session b))
            a).1
  after_record t usage message text a (err x, b) p h = rw p h
  after_record t usage message text a (ok u, b) p h =
      rw p (observe_usage-IsConsistent t usage b.session b h)

  on_message_end-IsConsistent :
      (message role : String) (text : Utf16) (usage : Option PiUsage) (t : Option ActiveTurn)
      (a : Actor)
      → a.turn ≡ t
      → IsConsistent a
      → IsConsistent (on_message_end deps env message role text usage t a).1
  unfolding on_message_end
  on_message_end-IsConsistent message role text usage none a e h = h
  on_message_end-IsConsistent message role text usage (some t) a e h =
      elim (Bool-cases (role == "assistant")) [
        | inl y ↦ rw y (
            after_record t usage message text _ _ refl (
              record_text-IsConsistent t message text
                (record a { turn = some (record t { last_assistant_text = some text }) })
                (ground arith)))
        | inr n ↦ rw n h
      ]

  settled-IsConsistent :
      (n : ℕ) (a : Actor) → IsConsistent a → IsConsistent (on_settled deps env n a).1
  unfolding on_settled settle
  settled-IsConsistent zero a h = settle_turn-IsConsistent "end_turn" a.turn a refl h
  settled-IsConsistent (suc n) a h = ground arith

  on_event-IsConsistent :
      (event : PiEvent) (a : Actor) → IsConsistent a → IsConsistent (on_event deps env event a).1
  unfolding on_event
  on_event-IsConsistent (message_end message role text usage) a h =
      on_message_end-IsConsistent message role text usage a.turn a refl h
  on_event-IsConsistent (agent_end w) a h = ground arith
  on_event-IsConsistent agent_settled a h = settled-IsConsistent a.stale_settles a h
  on_event-IsConsistent _ a h = h

  on_pi_event-IsConsistent :
      (event : PiEvent) (a : Actor) → IsConsistent a → IsConsistent (on_pi_event deps env event a).1
  unfolding on_pi_event
  on_pi_event-IsConsistent event a h =
      on_event-IsConsistent event (note_event env event a.turn a) (ground arith)

  cancel_with-IsConsistent :
      (reason : String) (t : Option ActiveTurn) (s : Option Session) (a : Actor)
      → a.turn ≡ t
      → IsConsistent a
      → IsConsistent (cancel_with deps env reason t s a).1
  unfolding cancel_with settle
  cancel_with-IsConsistent reason none s a e h = h
  cancel_with-IsConsistent reason (some t) none a e h = h
  cancel_with-IsConsistent reason (some t) (some s) a e h =
      settle_turn-IsConsistent reason a.turn _ refl (ground arith)

  on_cancel-IsConsistent :
      (reason : String) (a : Actor) → IsConsistent a → IsConsistent (on_cancel deps env reason a).1
  unfolding on_cancel
  on_cancel-IsConsistent reason a h = cancel_with-IsConsistent reason a.turn a.session a refl h

  on_rotate-IsConsistent : (a : Actor) → IsConsistent a → IsConsistent (on_rotate deps env a).1
  unfolding on_rotate
  on_rotate-IsConsistent a h = ground (arith, on_cancel-IsConsistent "rotated" a h)

  on_close-IsConsistent : (a : Actor) → IsConsistent a → IsConsistent (on_close deps env a).1
  unfolding on_close
  on_close-IsConsistent a h = ground (arith, on_cancel-IsConsistent "shutdown" a h)

  pub deliver-IsConsistent :
      (message : Mailbox) (a : Actor) → IsConsistent a → IsConsistent (deliver deps env message a)
  unfolding deliver handle
  deliver-IsConsistent (inbound accepted) a h = on_inbound-IsConsistent accepted a h
  deliver-IsConsistent (pi event) a h = on_pi_event-IsConsistent event a h
  deliver-IsConsistent (cancel reason) a h = on_cancel-IsConsistent reason a h
  deliver-IsConsistent rotate a h = on_rotate-IsConsistent a h
  deliver-IsConsistent close a h = on_close-IsConsistent a h

pump_first-IsConsistent :
    (deps : Deps) (env : Env) (messages : List Mailbox) (m : Mailroom)
    → IsConsistent m.actor
    → IsConsistent (pump_first deps env messages m).actor
unfolding pump_first
pump_first-IsConsistent deps env [] m h = h
pump_first-IsConsistent deps env (message ∷ rest) m h =
    deliver-IsConsistent deps env message m.actor h

step-IsConsistent :
    (deps : Deps) (s : Step) (m : Mailroom)
    → IsConsistent m.actor
    → IsConsistent (step deps s m).actor
unfolding step post pump
step-IsConsistent deps (posted message) m h = ground arith
step-IsConsistent deps (pumped env) m h = pump_first-IsConsistent deps env m.mailbox m h

steps-IsConsistent :
    (deps : Deps) (steps : List Step) (m : Mailroom)
    → IsConsistent m.actor
    → IsConsistent (run deps steps m).actor
unfolding run
steps-IsConsistent deps [] m h = h
steps-IsConsistent deps (s ∷ rest) m h =
    steps-IsConsistent deps rest (step deps s m) (step-IsConsistent deps s m h)

-- Whatever is posted, in whatever order the pump runs, and whatever the session, the registry and
-- Pi answer, the new actor keeps its invariant: a turn is there in `running` and `settling` and
-- not in `idle` and `starting`, its watches run as long as it does, and it holds a permit.
pub run-IsConsistent :
    (deps : Deps) (db : Db) (steps : List Step)
    → IsConsistent (run deps steps (record { actor = create db; mailbox = [] })).actor
unfolding create
run-IsConsistent deps db steps = steps-IsConsistent deps steps _ (ground arith)
