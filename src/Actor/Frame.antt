-- ===== src/Actor/Frame.antt =====
-- What the session plumbing of src/runtime/channel-actor.ts leaves alone.
use autogent.Prelude.{
  ℕ, ◌≡◌, String, Option, none, some, List, [], ◌∷◌, arith, Bool-cases, inl, inr, if◌then◌else◌,
}
use autogent.Actor.Defs.{Actor, Env, Session, HistoryMessage, context_injected}
use autogent.Actor.Session.{
  ensure_session, note_watermark, watermark, inject_delta, note_seeded, fold_history, emit,
}

-- `b` is `a` with another session, other watermarks and more effects, at most.
pub record SameTurn (a b : Actor) : Type 0 where
  pub state : b.state ≡ a.state
  pub turn : b.turn ≡ a.turn
  pub queue : b.queue ≡ a.queue
  pub stale_settles : b.stale_settles ≡ a.stale_settles
  pub permits : b.permits ≡ a.permits
  pub watches : b.watches ≡ a.watches
  pub db : b.db ≡ a.db
  pub ordinals : b.ordinals ≡ a.ordinals

SameTurn-refl : (a : Actor) → SameTurn a a
SameTurn-refl a = ground arith

pub SameTurn-trans : (a b c : Actor) → SameTurn a b → SameTurn b c → SameTurn a c
SameTurn-trans a b c h k = ground arith

pub ensure_session-SameTurn :
    (root : Option String) (env : Env) (a : Actor) → SameTurn a (ensure_session root env a).1
unfolding ensure_session
ensure_session-SameTurn root env a = ground arith

pub note_watermark-SameTurn :
    (key : String) (at : ℕ) (a : Actor) → SameTurn a (note_watermark key at a)
unfolding note_watermark
note_watermark-SameTurn key at a = ground arith

injected-SameTurn :
    (key : String) (s : Session) (env : Env) (m : HistoryMessage) (a : Actor)
    → SameTurn a (
        if env.injected m
        then note_watermark key m.created_at (emit (context_injected s.session_id m.event_id) a)
        else a)
injected-SameTurn key s env m a = elim (Bool-cases (env.injected m)) [
  | inl t ↦ rw t (
      SameTurn-trans a (emit (context_injected s.session_id m.event_id) a) _ (ground arith)
        (note_watermark-SameTurn key m.created_at _))
  | inr t ↦ rw t (SameTurn-refl a)
]

inject_delta-SameTurn :
    (key : String) (s : Session) (env : Env) (ms : List HistoryMessage) (a : Actor)
    → SameTurn a (inject_delta key s env ms a)
unfolding inject_delta
inject_delta-SameTurn key s env [] a = SameTurn-refl a
inject_delta-SameTurn key s env (m ∷ ms) a =
    let b : Actor =
      if env.injected m
      then note_watermark key m.created_at (emit (context_injected s.session_id m.event_id) a)
      else a in
    SameTurn-trans a b _ (injected-SameTurn key s env m a) (inject_delta-SameTurn key s env ms b)

note_seeded-SameTurn :
    (key : String) (ms : List HistoryMessage) (a : Actor) → SameTurn a (note_seeded key ms a)
unfolding note_seeded
note_seeded-SameTurn key [] a = SameTurn-refl a
note_seeded-SameTurn key (m ∷ ms) a =
    SameTurn-trans a (note_watermark key m.created_at a) _
      (note_watermark-SameTurn key m.created_at a)
      (note_seeded-SameTurn key ms (note_watermark key m.created_at a))

pub fold_history-SameTurn :
    (key : String) (s : Session) (env : Env) (o : Option (List HistoryMessage)) (a : Actor)
    → SameTurn a (fold_history key s env o a)
unfolding fold_history
fold_history-SameTurn key s env none a =
    inject_delta-SameTurn key s env (env.fetch_delta (watermark key a.watermarks)) a
fold_history-SameTurn key s env (some ms) a = note_seeded-SameTurn key ms a
