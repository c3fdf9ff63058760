-- ===== src/Actor/Session.antt =====
-- Session plumbing and watermarks of src/runtime/channel-actor.ts.
use autogent.Prelude.{
  ℕ, String, Bool, true, false, ◌||◌, not, Option, none, some, List, [], ◌∷◌, ◌++◌, ◌==◌, ltb,
  if◌then◌else◌,
}
use autogent.Exec.{ok, err, Exec, session_failed}
use autogent.Actor.Defs.{
  Actor, Env, Session, Acquired, HistoryMessage, Effect, session_resolved, context_injected,
}

abbrev pub emit : Effect → Actor → Actor
emit e a = record a { effects = a.effects ++ e ∷ [] }

abbrev same_thread : Option String → Option String → Bool
same_thread none none = true
same_thread none (some y) = false
same_thread (some x) none = false
same_thread (some x) (some y) = x == y

-- A disposed session, or that of another conversation, is let go.
drop_stale : Option String → Env → Option Session → Actor → Actor
drop_stale root env none a = a
drop_stale root env (some s) a =
    if env.session_disposed || not (same_thread a.session_thread_root_id root)
    then record a { subscribed = false; session = none }
    else a

-- The session, and the history that seeded it if it was created now.
acquire : Option String → Option Acquired → Exec Actor (Session × Option (List HistoryMessage))
acquire root none a = (err session_failed, a)
acquire root (some got) a = (
  ok (got.session, got.seeded),
  emit (session_resolved got.session.session_id)
      (record a { session = some got.session; session_thread_root_id = root; subscribed = true }),
)

reuse_or_acquire :
    Option String → Env → Option Session → Exec Actor (Session × Option (List HistoryMessage))
unfolding acquire
reuse_or_acquire root env (some s) a = (ok (s, none), a)
reuse_or_acquire root env none a = acquire root env.acquired a

unfoldable pub ensure_session :
    Option String → Env → Exec Actor (Session × Option (List HistoryMessage))
unfolding drop_stale reuse_or_acquire
ensure_session root env a =
    let b = drop_stale root env a.session a in reuse_or_acquire root env b.session b

-- `#watermarks.get(key)`
unfoldable pub watermark : String → List (String × ℕ) → Option ℕ
watermark key [] = none
watermark key ((k, n) ∷ rest) = if k == key then some n else watermark key rest

unfoldable pub set_watermark : String → ℕ → List (String × ℕ) → List (String × ℕ)
set_watermark key n [] = (key, n) ∷ []
set_watermark key n ((k, m) ∷ rest) =
    let others = set_watermark key n rest in if k == key then (key, n) ∷ rest else (k, m) ∷ others

abbrev pub or_zero : Option ℕ → ℕ
or_zero none = 0
or_zero (some n) = n

unfoldable pub note_watermark : String → ℕ → Actor → Actor
unfolding watermark set_watermark
note_watermark key at a =
    if ltb (or_zero (watermark key a.watermarks)) at
    then record a { watermarks = set_watermark key at a.watermarks }
    else a

-- The delta of a continuing session: a message that cannot be injected does not move the watermark.
unfoldable pub inject_delta : String → Session → Env → List HistoryMessage → Actor → Actor
unfolding note_watermark
inject_delta key s env [] a = a
inject_delta key s env (m ∷ ms) a = inject_delta key s env ms (
    if env.injected m
    then note_watermark key m.created_at (emit (context_injected s.session_id m.event_id) a)
    else a)

unfoldable pub note_seeded : String → List HistoryMessage → Actor → Actor
unfolding note_watermark
note_seeded key [] a = a
note_seeded key (m ∷ ms) a = note_seeded key ms (note_watermark key m.created_at a)

-- What a new turn tells its session of the messages before it.
unfoldable pub fold_history : String → Session → Env → Option (List HistoryMessage) → Actor → Actor
unfolding inject_delta note_seeded
fold_history key s env none a =
    inject_delta key s env (env.fetch_delta (watermark key a.watermarks)) a
fold_history key s env (some seeded) a = note_seeded key seeded a
