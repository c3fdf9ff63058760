-- ===== src/Actor/Straggler.antt =====
-- The settle that a cancelled run still reports to src/runtime/channel-actor.ts.
use autogent.Prelude.{
  ℕ, suc, ◌≡◌, refl, sym, ◌∙◌, ◌⊎◌, inl, inr, String, none, some, List, ◌∷◌, arith,
}
use mathlib.Core.Path.{subst}
use autogent.Exec.{Result}
use autogent.Thread.{canonical_thread_root}
use autogent.Actor.Defs.{
  running, Actor, ActiveTurn, AcceptedEvent, Env, Deps, Session, cancel, pi, agent_settled,
}
use autogent.Actor.Branches.{on_cancel_next, cancelled_before}
use autogent.Actor.Start.{Launched, IsFreshTurn, Outcome, start_turn-Outcome}
use autogent.Actor.Turns.{close_turn}
use autogent.Actor.Handle.{on_pi_event, on_event, on_settled, note_event, handle, deliver}
use autogent.Actor.Stuck.{IsStranded}

module _ (deps : Deps) where
  -- A settle that was announced ends nothing.
  discounted :
      (env : Env) (n : ℕ) (t : ActiveTurn) (b : Actor)
      → b.turn ≡ some t
      → b.stale_settles ≡ suc n
      → let c = deliver deps env (pi agent_settled) b in
        (c.turn ≡ some (record t { last_activity_ms = env.now }))
        × (c.state ≡ b.state)
        × (c.queue ≡ b.queue)
        × (c.stale_settles ≡ n)
  unfolding deliver handle on_pi_event on_event on_settled note_event
  discounted env n t b e s = ground arith

  -- The turn of `next` runs in `b`, and still does in `c`.
  pub record Spares (env : Env) (next : AcceptedEvent) (b c : Actor) : Type 0 where
    pub turn : ActiveTurn
    pub fresh : IsFreshTurn deps env next.event (canonical_thread_root next.event) turn
    pub before : b.turn ≡ some turn
    pub noted : ActiveTurn
    pub after : c.turn ≡ some noted
    pub same : noted.context ≡ turn.context
    pub state : c.state ≡ running

  Spares-Launched :
      (env env₂ : Env) (next : AcceptedEvent) (n : ℕ) (a b : Actor)
      → a.stale_settles ≡ suc n
      → Launched deps env next.event (canonical_thread_root next.event) a b
      → Spares env next b (deliver deps env₂ (pi agent_settled) b)
        × ((deliver deps env₂ (pi agent_settled) b).queue ≡ a.queue)
        × ((deliver deps env₂ (pi agent_settled) b).stale_settles ≡ n)
  Spares-Launched env env₂ next n a b s l =
      let (t, e, f) = l.turn in
      let (turn, state, queue, stale) = discounted env₂ n t b e (l.stale_settles ∙ s) in
      (
        record {
          turn = t;
          fresh = f;
          before = e;
          noted = record t { last_activity_ms = env₂.now };
          after = turn;
          same = refl;
          state = state ∙ l.state;
        },
        queue ∙ l.queue,
        stale,
      )

  closed :
      (env : Env) (reason : String) (t : ActiveTurn) (s : Session) (rest : List AcceptedEvent)
      (a : Actor)
      → ((cancelled_before env reason t s rest a).turn ≡ none)
        × ((cancelled_before env reason t s rest a).stale_settles ≡ suc a.stale_settles)
  unfolding close_turn
  closed env reason t s rest a = (refl, refl)

  -- A cancellation of a running turn, with events in the queue, takes the oldest of them out of the queue.
  -- Where its turn starts, the settle that the cancelled run reports afterwards does not end
  -- that turn: it runs on with its context, the queue keeps the other events, and no further
  -- settle is discounted than before. Where the start throws, the actor is left without a turn.
  pub straggler_keeps_next :
      (env env₂ : Env) (reason : String) (t : ActiveTurn) (s : Session) (next : AcceptedEvent)
      (rest : List AcceptedEvent) (a : Actor)
      → a.turn ≡ some t
      → a.session ≡ some s
      → a.queue ≡ next ∷ rest
      → let b = deliver deps env (cancel reason) a in
        let c = deliver deps env₂ (pi agent_settled) b in
        (Spares env next b c × (c.queue ≡ rest) × (c.stale_settles ≡ a.stale_settles))
        ⊎ IsStranded b
  unfolding deliver handle
  straggler_keeps_next env env₂ reason t s next rest a et es eq =
      subst
        (λ p.
          (Spares env next p.1 (deliver deps env₂ (pi agent_settled) p.1)
            × ((deliver deps env₂ (pi agent_settled) p.1).queue ≡ rest)
            × ((deliver deps env₂ (pi agent_settled) p.1).stale_settles ≡ a.stale_settles))
          ⊎ IsStranded p.1)
        (sym (on_cancel_next deps env reason t s next rest a et es eq))
        (outcome _ (
          start_turn-Outcome deps env next (canonical_thread_root next.event)
            (cancelled_before env reason t s rest a)))
    where
      outcome :
          (p : Result (Unit {0}) × Actor)
          → Outcome deps env next
              (canonical_thread_root next.event)
              (cancelled_before env reason t s rest a)
              p
          → (Spares env next p.1 (deliver deps env₂ (pi agent_settled) p.1)
              × ((deliver deps env₂ (pi agent_settled) p.1).queue ≡ rest)
              × ((deliver deps env₂ (pi agent_settled) p.1).stale_settles ≡ a.stale_settles))
            ⊎ IsStranded p.1
      outcome (r, b) (inl (k, l)) = inl (
          Spares-Launched env env₂ next a.stale_settles (cancelled_before env reason t s rest a) b
            (closed env reason t s rest a).1 l)
      outcome (r, b) (inr k) =
          inr (record { state = k.state; turn = k.turn ∙ (closed env reason t s rest a).0 })
