-- ===== src/Actor/Stuck.antt =====
-- Two ways in which the channel actor of src/runtime/channel-actor.ts stops answering: a start that
-- throws, and a `!rotate` while events are queued.
use autogent.Prelude.{
  ◌≡◌, refl, ◌∙◌, ap, sym, ◌⊎◌, inl, inr, String, true, false, none, some, List, [], ◌∷◌, ◌++◌,
  append_assoc, append-nil, arith,
}
use mathlib.Core.Path.{subst}
use autogent.Exec.{Result, ok, err}
use autogent.State.Rows.{Db}
use autogent.Thread.{canonical_thread_root}
use autogent.Actor.Defs.{
  idle, starting, Actor, ActiveTurn, AcceptedEvent, Env, Deps, Session, Mailbox, inbound, cancel,
  rotate, sessions_released,
}
use autogent.Actor.Branches.{on_inbound_idle, on_cancel_next, cancelled_before}
use autogent.Actor.Start.{IsFreshTurn, Outcome, start_turn-Outcome}
use autogent.Actor.Session.{ensure_session, emit}
use autogent.Actor.Turns.{
  start_turn, open_session, store_turn, enqueue, steer_into, steer_turn, close_turn,
}
use autogent.Actor.Handle.{
  in_flight, on_inbound, cancel_with, on_cancel, on_rotate, handle, deliver,
}

-- What the owner and the members of a channel can send.
pub data Request : Type 0 where
  message : AcceptedEvent → Request
  cancelled : String → Request
  rotated : Request

abbrev pub request : Request → Mailbox
request (message e) = inbound e
request (cancelled reason) = cancel reason
request rotated = rotate

abbrev pub messages : List Request → List AcceptedEvent
messages [] = []
messages (message e ∷ rs) = e ∷ messages rs
messages (cancelled reason ∷ rs) = messages rs
messages (rotated ∷ rs) = messages rs

-- The requests of a list, one after the other, each with its answers.
unfoldable pub requests : Deps → (Request → Env) → List Request → Actor → Actor
requests deps env [] a = a
requests deps env (r ∷ rs) a = requests deps env rs (deliver deps (env r) (request r) a)

-- No turn, and not ready for one.
pub record IsStranded (a : Actor) : Type 0 where
  pub state : a.state ≡ starting
  pub turn : a.turn ≡ none

-- The second half of a rotation.
abbrev rotate_after : Result (Unit {0}) × Actor → Result (Unit {0}) × Actor
rotate_after (ok u, b) = (
  ok tt,
  emit sessions_released (record b {
    subscribed = false;
    session = none;
    session_thread_root_id = none;
    watermarks = [];
  }),
)
rotate_after (err x, b) = (err x, b)

-- A turn in flight, and no session that could end it.
pub record IsOrphaned (t : ActiveTurn) (a : Actor) : Type 0 where
  pub flight : in_flight a.state ≡ true
  pub turn : a.turn ≡ some t
  pub session : a.session ≡ none
  pub subscribed : a.subscribed ≡ false

module _ (deps : Deps) where
  IsStranded-step :
      (env : Env) (r : Request) (a : Actor)
      → IsStranded a
      → IsStranded (deliver deps env (request r) a)
        × ((deliver deps env (request r) a).queue ≡ a.queue ++ messages (r ∷ []))
  unfolding deliver handle on_inbound on_cancel cancel_with on_rotate enqueue
  IsStranded-step env (message e) a h = ground (arith, append-nil a.queue)
  IsStranded-step env (cancelled reason) a h = ground (arith, append-nil a.queue)
  IsStranded-step env rotated a h = ground (arith, append-nil a.queue)

  IsOrphaned-step :
      (env : Env) (r : Request) (t : ActiveTurn) (a : Actor)
      → IsOrphaned t a
      → IsOrphaned t (deliver deps env (request r) a)
        × ((deliver deps env (request r) a).queue ≡ a.queue ++ messages (r ∷ []))
  unfolding deliver handle on_inbound on_cancel cancel_with on_rotate enqueue steer_turn steer_into
  IsOrphaned-step env (message e) t a h = ground (arith, append-nil a.queue)
  IsOrphaned-step env (cancelled reason) t a h = ground (arith, append-nil a.queue)
  IsOrphaned-step env rotated t a h = ground (arith, append-nil a.queue)

  module _ (P : Actor → Type 0)
      (keep : (env : Env) (r : Request) (a : Actor)
        → P a
        → P (deliver deps env (request r) a)
          × ((deliver deps env (request r) a).queue ≡ a.queue ++ messages (r ∷ [])))
      (envs : Request → Env) where
    messages-cons :
        (r : Request) (rs : List Request) → messages (r ∷ []) ++ messages rs ≡ messages (r ∷ rs)
    messages-cons (message e) rs = refl
    messages-cons (cancelled reason) rs = refl
    messages-cons rotated rs = refl

    requests_keep :
        (rs : List Request) (a : Actor)
        → P a
        → P (requests deps envs rs a) × ((requests deps envs rs a).queue ≡ a.queue ++ messages rs)
    unfolding requests
    requests_keep [] a h = (h, sym (append-nil a.queue))
    requests_keep (r ∷ rs) a h =
        let b = deliver deps (envs r) (request r) a in
        let (hb, qb) = keep (envs r) r a h in
        let (hc, qc) = requests_keep rs b hb in
        (
          hc,
          qc
              ∙ ap (λ q. q ++ messages rs) qb
              ∙ append_assoc a.queue (messages (r ∷ [])) (messages rs)
              ∙ ap (λ q. a.queue ++ q) (messages-cons r rs),
        )

  no_session-IsStranded :
      (env : Env) (accepted : AcceptedEvent) (root : String) (a : Actor)
      (p : Result (Unit {0}) × Db)
      → store_turn deps env accepted.event root a.db ≡ p
      → env.acquired ≡ none
      → a.session ≡ none
      → a.turn ≡ none
      → IsStranded (start_turn deps env accepted root a).1
        × ((start_turn deps env accepted root a).1.queue ≡ a.queue)
  unfolding start_turn open_session ensure_session
  no_session-IsStranded env accepted root a (err x, db) e q s t = rw e (ground arith)
  no_session-IsStranded env accepted root a (ok u, db) e q s t = rw e (ground arith)

  delivered-IsStranded :
      (env : Env) (accepted : AcceptedEvent) (a : Actor)
      → a.state ≡ idle
      → a.turn ≡ none
      → a.session ≡ none
      → env.acquired ≡ none
      → IsStranded (deliver deps env (inbound accepted) a)
        × ((deliver deps env (inbound accepted) a).queue ≡ a.queue)
  unfolding deliver handle
  delivered-IsStranded env accepted a i t s q =
      subst (λ r. IsStranded r.1 × (r.1.queue ≡ a.queue))
        (sym (on_inbound_idle deps env accepted a i))
        (no_session-IsStranded env accepted (canonical_thread_root accepted.event) a _ refl q s t)

  -- Where an idle actor has no session and the registry cannot open one, the message that came is
  -- neither answered nor queued, and from then on no message, cancellation or rotation starts a
  -- turn, whatever the registry answers later: every later message only joins the queue.
  pub failed_start_strands :
      (env : Env) (accepted : AcceptedEvent) (a : Actor) (envs : Request → Env) (rs : List Request)
      → a.state ≡ idle
      → a.turn ≡ none
      → a.session ≡ none
      → env.acquired ≡ none
      → let b = requests deps envs rs (deliver deps env (inbound accepted) a) in
        IsStranded b × (b.queue ≡ a.queue ++ messages rs)
  failed_start_strands env accepted a envs rs i t s q =
      let (h, e) = delivered-IsStranded env accepted a i t s q in
      let (k, l) =
        requests_keep IsStranded IsStranded-step envs rs (deliver deps env (inbound accepted) a)
          h in
      (k, l ∙ ap (λ x. x ++ messages rs) e)

  -- What a rotation leaves when it finds a turn and a queue.
  abbrev pub Wedged : Env → AcceptedEvent → Actor → Type 0
  Wedged env next b =
      IsStranded b
      ⊎ ((t : ActiveTurn) × IsFreshTurn deps env next.event (canonical_thread_root next.event) t
          × IsOrphaned t b)

  Wedged-step :
      (env : Env) (next : AcceptedEvent) (env' : Env) (r : Request) (a : Actor)
      → Wedged env next a
      → Wedged env next (deliver deps env' (request r) a)
        × ((deliver deps env' (request r) a).queue ≡ a.queue ++ messages (r ∷ []))
  Wedged-step env next env' r a (inl h) = let (k, q) = IsStranded-step env' r a h in (inl k, q)
  Wedged-step env next env' r a (inr (t, f, h)) =
      let (k, q) = IsOrphaned-step env' r t a h in (inr (t, f, k), q)

  rotate_rest :
      (env : Env) (next : AcceptedEvent) (c : Actor) (p : Result (Unit {0}) × Actor)
      → c.turn ≡ none
      → Outcome deps env next (canonical_thread_root next.event) c p
      → Wedged env next (rotate_after p).1 × ((rotate_after p).1.queue ≡ c.queue)
  rotate_rest env next c (r, b) e (inl (k, l)) = rw k (
    inr (
      l.turn.0,
      l.turn.2,
      record {
        flight = ground (arith, l.state);
        turn = l.turn.1;
        session = refl;
        subscribed = refl;
      },
    ),
    l.queue,
  )
  rotate_rest env next c (ok u, b) e (inr s) = (inl (ground arith), s.queue)
  rotate_rest env next c (err x, b) e (inr s) = (inl (ground arith), s.queue)

  on_rotate_lem :
      (env : Env) (a : Actor) → on_rotate deps env a ≡ rotate_after (on_cancel deps env "rotated" a)
  unfolding on_rotate
  on_rotate_lem env a = after (on_cancel deps env "rotated" a) refl
    where
      after :
          (p : Result (Unit {0}) × Actor)
          → on_cancel deps env "rotated" a ≡ p
          → on_rotate deps env a ≡ rotate_after (on_cancel deps env "rotated" a)
      after (ok u, b) e = rw e
      after (err x, b) e = rw e

  rotate_outcome :
      (env : Env) (t : ActiveTurn) (s : Session) (next : AcceptedEvent) (rest : List AcceptedEvent)
      (a : Actor)
      → a.turn ≡ some t
      → a.session ≡ some s
      → a.queue ≡ next ∷ rest
      → Wedged env next (deliver deps env rotate a) × ((deliver deps env rotate a).queue ≡ rest)
  unfolding deliver handle
  rotate_outcome env t s next rest a et es eq =
      let c = cancelled_before env "rotated" t s rest a in
      subst (λ p. Wedged env next p.1 × (p.1.queue ≡ rest)) (sym (on_rotate_lem env a))
        (subst (λ p. Wedged env next (rotate_after p).1 × ((rotate_after p).1.queue ≡ rest))
          (sym (on_cancel_next deps env "rotated" t s next rest a et es eq))
          (rotate_rest env next c _ (unfold close_turn in refl)
            (start_turn-Outcome deps env next (canonical_thread_root next.event) c)))

  -- A `!rotate` while a turn runs and events wait: the oldest of them leaves the queue, and then
  -- either has a turn in flight whose session the actor has let go of and no longer hears, or
  -- none. From then on no message, cancellation or rotation changes that: the turn is never
  -- ended, no other is started, and every later message only joins the queue.
  pub rotate_with_queue_wedges :
      (env : Env) (t : ActiveTurn) (s : Session) (next : AcceptedEvent) (rest : List AcceptedEvent)
      (a : Actor) (envs : Request → Env) (rs : List Request)
      → a.turn ≡ some t
      → a.session ≡ some s
      → a.queue ≡ next ∷ rest
      → let b = requests deps envs rs (deliver deps env rotate a) in
        Wedged env next b × (b.queue ≡ rest ++ messages rs)
  rotate_with_queue_wedges env t s next rest a envs rs et es eq =
      let (w, q) = rotate_outcome env t s next rest a et es eq in
      let (k, l) =
        requests_keep (Wedged env next) (Wedged-step env next) envs rs (deliver deps env rotate a)
          w in
      (k, l ∙ ap (λ x. x ++ messages rs) q)
