-- ===== src/Actor/Steering.antt =====
-- What a rejected steer of src/runtime/channel-actor.ts leaves behind in `turn_inputs`.
use mathlib.Core.Path.{subst}
use autogent.Prelude.{
  ℕ, ◌≡◌, ◌≢◌, refl, ◌∙◌, ap, sym, String, true, false, none, some, [], ◌∷◌, ◌++◌, arith, length,
  eq_iff,
}
use autogent.Exec.{err_ne_ok, Result, ok, err, constraint_failed}
use autogent.Nostr.{NostrEvent}
use autogent.State.Rows.{Db, TurnInputRole, steer, pending}
use autogent.State.Table.{any}
use autogent.State.Table.Laws.{any-append}
use autogent.State.Turns.{add_input, is_input, holds_ordinal}
use autogent.State.Inbox.{assign_to_turn, set_disposition}
use autogent.Thread.{canonical_thread_root, conversation_key}
use autogent.Actor.Defs.{Actor, ActiveTurn, AcceptedEvent, Env, Deps, Session}
use autogent.Actor.Branches.{on_inbound_steered}
use autogent.Actor.Turns.{steer_into, store_steer, enqueue}
use autogent.Actor.Handle.{in_flight, on_inbound}

module _ (turn event : String) (role : TurnInputRole) (n : ℕ) (db : Db) where
  -- A new input that is stored takes its ordinal.
  add_input_takes :
      any (is_input turn event) db.turn_inputs ≡ false
      → (add_input turn event role n db).0 ≡ ok tt
      → any (holds_ordinal turn n) (add_input turn event role n db).1.turn_inputs ≡ true
  unfolding add_input any
  add_input_takes new stored = ground (
    arith,
    any-append (holds_ordinal turn n) db.turn_inputs (
        record {
          turn_id = turn;
          event_id = event;
          role = role;
          ordinal = n;
          delivery_state = pending;
          delivered_at = none;
        }
        ∷ []),
    eq_iff turn turn,
  )

  -- It is the only row that is new.
  add_input_others :
      (other : String)
      → event ≢ other
      → any (is_input turn other) db.turn_inputs ≡ false
      → any (is_input turn other) (add_input turn event role n db).1.turn_inputs ≡ false
  unfolding add_input any
  add_input_others other ne absent = ground (
    arith,
    any-append (is_input turn other) db.turn_inputs (
        record {
          turn_id = turn;
          event_id = event;
          role = role;
          ordinal = n;
          delivery_state = pending;
          delivered_at = none;
        }
        ∷ []),
    eq_iff event other,
  )

  -- An ordinal that is taken is refused.
  add_input_refused :
      any (is_input turn event) db.turn_inputs ≡ false
      → any (holds_ordinal turn n) db.turn_inputs ≡ true
      → add_input turn event role n db ≡ (err constraint_failed, db)
  unfolding add_input
  add_input_refused new taken = rw (new, taken)

module _ (event : NostrEvent) (t : ActiveTurn) (db : Db) where
  abbrev adding : Result (Unit {0}) × Db
  adding = add_input t.context.turn_id event.id steer (length t.context.inputs) db

  store_steer_stored :
      (p : Result (Unit {0}) × Db)
      → adding ≡ p
      → (store_steer event t db).0 ≡ ok tt
      → (adding.0 ≡ ok tt) × ((store_steer event t db).1.turn_inputs ≡ adding.1.turn_inputs)
  unfolding store_steer assign_to_turn
  store_steer_stored (ok u, d) e h = rw e (refl, refl)
  store_steer_stored (err x, d) e h = absurd (err_ne_ok (rw e at h))

  store_steer_refused :
      adding ≡ (err constraint_failed, db) → store_steer event t db ≡ (err constraint_failed, db)
  unfolding store_steer
  store_steer_refused e = rw e

module _ (env : Env) (accepted : AcceptedEvent) (t : ActiveTurn) (s : Session) (a : Actor) where
  steer_into_after :
      (p : Result (Unit {0}) × Db)
      → store_steer accepted.event t a.db ≡ p
      → env.steer_taken ≡ false
      → (steer_into env accepted (some t) (some s) a).0 ≡ ok tt
      → (p.0 ≡ ok tt)
        × ((steer_into env accepted (some t) (some s) a).1
            ≡ enqueue accepted (some none) (record a { db = p.1 }))
  unfolding steer_into
  steer_into_after (ok u, d) e n h = rw (e, n) (refl, refl)
  steer_into_after (err x, d) e n h = absurd (err_ne_ok (rw e at h))

  steer_into_refused :
      store_steer accepted.event t a.db ≡ (err constraint_failed, a.db)
      → steer_into env accepted (some t) (some s) a ≡ (err constraint_failed, a)
  unfolding steer_into
  steer_into_refused e = rw e

module _ (deps : Deps) (env : Env) (first second : AcceptedEvent) (t : ActiveTurn) (s : Session)
    (a : Actor) (d : Db) where
  abbrev queued_with : Actor
  queued_with = enqueue first (some none) (record a { db = d })

  refused_after :
      a.turn ≡ some t
      → a.session ≡ some s
      → in_flight a.state ≡ true
      → t.conversation
        ≡ conversation_key deps.relay_id deps.channel_id (canonical_thread_root second.event)
      → any (is_input t.context.turn_id second.event.id) d.turn_inputs ≡ false
      → any (holds_ordinal t.context.turn_id (length t.context.inputs)) d.turn_inputs ≡ true
      → on_inbound deps env second queued_with ≡ (err constraint_failed, queued_with)
  unfolding enqueue set_disposition
  refused_after et es f c new taken =
      on_inbound_steered deps env second t s queued_with et es f c
      ∙ steer_into_refused env second t s queued_with (
          store_steer_refused second.event t queued_with.db (
            add_input_refused t.context.turn_id second.event.id steer (length t.context.inputs)
              queued_with.db new taken))

-- The actor when a first message has been refused as a steer of the turn `t` in flight.
module _ (deps : Deps) (env₁ env₂ : Env) (first second : AcceptedEvent) (t : ActiveTurn)
    (s : Session) (a : Actor) where
  abbrev pub after_refusal : Actor
  after_refusal = (on_inbound deps env₁ first a).1

  -- A message that the backend refuses as a steer is queued, but its row keeps its ordinal in
  -- the turn: when `t` runs in session `s`, both messages belong to `t`'s conversation, neither is
  -- an input of `t` yet, they are different, and the first is stored and then refused by the backend,
  -- then the first is at the end of the queue, and the handler of the second fails on the store's
  -- constraint and changes nothing: it is neither queued nor steered.
  pub rejected_steer_blocks_next :
      a.turn ≡ some t
      → a.session ≡ some s
      → in_flight a.state ≡ true
      → t.conversation
        ≡ conversation_key deps.relay_id deps.channel_id (canonical_thread_root first.event)
      → t.conversation
        ≡ conversation_key deps.relay_id deps.channel_id (canonical_thread_root second.event)
      → any (is_input t.context.turn_id first.event.id) a.db.turn_inputs ≡ false
      → any (is_input t.context.turn_id second.event.id) a.db.turn_inputs ≡ false
      → first.event.id ≢ second.event.id
      → env₁.steer_taken ≡ false
      → (on_inbound deps env₁ first a).0 ≡ ok tt
      → (after_refusal.queue ≡ a.queue ++ first ∷ [])
        × (on_inbound deps env₂ second after_refusal ≡ (err constraint_failed, after_refusal))
  unfolding enqueue set_disposition
  rejected_steer_blocks_next et es f c₁ c₂ n₁ n₂ ne refused went =
      let step = on_inbound_steered deps env₁ first t s a et es f c₁ in
      let (stored, after) =
        steer_into_after env₁ first t s a (store_steer first.event t a.db) refl refused
          (rw step at went) in
      let (added, rows) =
        store_steer_stored first.event t a.db (adding first.event t a.db) refl stored in
      let b = after_refusal_is step after in
      (
        ap (λ x. x.queue) b,
        subst (λ x. on_inbound deps env₂ second x ≡ (err constraint_failed, x)) (sym b)
            (refused_after deps env₂ first second t s a (store_steer first.event t a.db).1 et es f
              c₂
              (rw rows (
                add_input_others t.context.turn_id first.event.id steer (length t.context.inputs)
                  a.db second.event.id ne n₂))
              (rw rows (
                add_input_takes t.context.turn_id first.event.id steer (length t.context.inputs)
                  a.db n₁ added))),
      )
    where
      after_refusal_is :
          on_inbound deps env₁ first a ≡ steer_into env₁ first (some t) (some s) a
          → (steer_into env₁ first (some t) (some s) a).1
            ≡ enqueue first (some none) (record a { db = (store_steer first.event t a.db).1 })
          → after_refusal
            ≡ enqueue first (some none) (record a { db = (store_steer first.event t a.db).1 })
      after_refusal_is p q = ap (λ x. x.1) p ∙ q
