-- ===== src/State/Turns.antt =====
-- src/state/turn-repository.ts, with the constraints of `turns` and `turn_inputs` in
-- src/state/migrations.ts. `now` is the clock's reading at the call.
use autogent.Prelude.{
  ℕ, String, Bool, true, false, ◌&&◌, ◌||◌, not, Option, none, some, List, [], ◌∷◌, ◌++◌, ◌==◌, eqb,
  if◌then◌else◌,
}
use autogent.Exec.{ok, err, Exec, constraint_failed}
use autogent.State.Table.{find, any, select, update, sort_by}
use autogent.State.Order.{then_by, not_after, by_number, by_text}
use autogent.State.Rows.{
  TurnState, created, running, settling, settled, interrupted, failed, completed, TurnRecord,
  TurnInputRole, TurnInputRow, pending, delivered, Db,
}

-- LIVE_STATES_SQL
abbrev pub is_live : TurnState → Bool
is_live created = true
is_live running = true
is_live settling = true
is_live settled = true
is_live _ = false

-- TERMINAL_STATES
abbrev pub is_terminal : TurnState → Bool
is_terminal settled = true
is_terminal interrupted = true
is_terminal failed = true
is_terminal completed = true
is_terminal _ = false

abbrev pub is_turn : String → TurnRecord → Bool
is_turn id r = r.turn_id == id

-- A second row with the turn's id breaks the primary key.
unfoldable pub create : TurnRecord → Exec Db Unit
create turn db =
    if any (is_turn turn.turn_id) db.turns
    then (err constraint_failed, db)
    else (ok tt, record db { turns = db.turns ++ turn ∷ [] })

unfoldable pub get : String → Db → Option TurnRecord
get id db = find (is_turn id) db.turns

-- COALESCE(a, b)
abbrev pub coalesce : Option ℕ → Option ℕ → Option ℕ
coalesce none b = b
coalesce (some a) b = some a

abbrev pub reason_or : Option (Option String) → Option String → Option String
reason_or none kept = kept
reason_or (some reason) kept = reason

abbrev pub with_state : TurnState → Option ℕ → Option (Option String) → TurnRecord → TurnRecord
with_state s at reason r = record r {
  state = s;
  settled_at = coalesce r.settled_at at;
  stop_reason = reason_or reason r.stop_reason;
}

-- The reason is `undefined` (`none`) where the stored one is kept.
unfoldable pub set_state : String → TurnState → Option (Option String) → ℕ → Db → Db
set_state id s reason now db =
    let at = if is_terminal s then some now else none in
    record db { turns = update (is_turn id) (with_state s at reason) db.turns }

abbrev pub is_input : String → String → TurnInputRow → Bool
is_input turn event r = r.turn_id == turn && r.event_id == event

abbrev pub holds_ordinal : String → ℕ → TurnInputRow → Bool
holds_ordinal turn n r = r.turn_id == turn && eqb r.ordinal n

-- The row that is there already stays as it is. A new one wants its turn and its inbox row, which
-- the foreign keys demand, and an ordinal that no other input of the turn has.
unfoldable pub add_input : String → String → TurnInputRole → ℕ → Exec Db Unit
add_input turn event role n db =
    let row : TurnInputRow = record {
      turn_id = turn;
      event_id = event;
      role = role;
      ordinal = n;
      delivery_state = pending;
      delivered_at = none;
    } in
    if any (is_input turn event) db.turn_inputs
    then (ok tt, db)
    else if any (holds_ordinal turn n) db.turn_inputs
        || not (any (is_turn turn) db.turns)
        || not (any (λ r. r.event_id == event) db.inbox)
    then (err constraint_failed, db)
    else (ok tt, record db { turn_inputs = db.turn_inputs ++ row ∷ [] })

unfoldable pub mark_input_delivered : String → String → ℕ → Db → Db
mark_input_delivered turn event at db = record db {
  turn_inputs =
      update (is_input turn event)
        (λ r. record r { delivery_state = delivered; delivered_at = some at }) db.turn_inputs;
}

unfoldable pub inputs : String → Db → List TurnInputRow
inputs turn db =
    sort_by (λ a b. not_after (by_number a.ordinal b.ordinal))
      (select (λ r. r.turn_id == turn) db.turn_inputs)

unfoldable pub unfinished : Db → List TurnRecord
unfinished db =
    sort_by
      (λ a b.
        not_after (then_by (by_number a.started_at b.started_at) (by_text a.turn_id b.turn_id)))
      (select (λ r. is_live r.state) db.turns)
