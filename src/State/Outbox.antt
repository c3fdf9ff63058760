-- ===== src/State/Outbox.antt =====
-- src/state/outbox-repository.ts. `now` is the clock's reading at the call.
pub mod Durable
use Prim.Native.Nat.{Ordering, max}
use autogent.Prelude.{
  ℕ, suc, ◌+◌, String, Bool, true, false, ◌&&◌, ◌||◌, not, Option, none, some, List, [], ◌∷◌, ◌++◌,
  map, ◌==◌, leb, if◌then◌else◌,
}
use autogent.Exec.{Result, ok, err, Exec, constraint_failed}
use autogent.State.Table.{find, any, select, update, sort_by}
use autogent.State.Order.{then_by, not_after, by_number, by_text}
use autogent.State.Rows.{
  OutputIntentState, signed, abandoned, OutputIntent, IntentRow, OutboxState, failed, OutboxRecord,
  OutboxRow, Db,
}

abbrev pub is_intent : String → IntentRow → Bool
is_intent id r = r.intent.logical_id == id

abbrev pub is_out : String → OutboxRow → Bool
is_out id r = r.out.logical_id == id

-- The result is `changes > 0`; a new row wants its turn, which the foreign key demands.
unfoldable pub put_intent : OutputIntent → ℕ → Exec Db Bool
put_intent intent now db =
    if any (is_intent intent.logical_id) db.output_intents
    then (ok false, db)
    else if any (λ t. t.turn_id == intent.turn_id) db.turns
    then (
      ok true,
      record db {
        output_intents = db.output_intents ++ (record { intent = intent; created_at = now }) ∷ [];
      },
    )
    else (err constraint_failed, db)

unfoldable pub intents_for_turn : String → Db → List OutputIntent
intents_for_turn turn db =
    map (λ r. r.intent)
      (sort_by
        (λ a b. not_after (
          then_by (by_number a.intent.ordinal b.intent.ordinal)
            (by_text a.intent.logical_id b.intent.logical_id)))
        (select (λ r. r.intent.turn_id == turn) db.output_intents))

abbrev pub with_intent_state : OutputIntentState → IntentRow → IntentRow
with_intent_state s r = record r { intent = record r.intent { state = s } }

unfoldable pub set_intent_state : String → OutputIntentState → Db → Db
set_intent_state id s db = record db {
  output_intents = update (is_intent id) (with_intent_state s) db.output_intents;
}

-- The first signed event of a logical id stays; the intent is signed with it.
unfoldable pub put_signed : OutboxRecord → ℕ → Db → Db
put_signed out now db = set_intent_state out.logical_id signed (record db {
  outbox =
      if any (is_out out.logical_id) db.outbox
      then db.outbox
      else db.outbox ++ (record { out = out; created_at = now }) ∷ [];
})

unfoldable pub mark_published : String → Db → Db
mark_published id db = set_intent_state id OutputIntentState.published (record db {
  outbox =
      update (is_out id)
        (λ r. record r {
          out = record r.out { state = OutboxState.published; next_retry_at = none };
        })
        db.outbox;
})

abbrev pub is_published : OutboxState → Bool
is_published OutboxState.published = true
is_published _ = false

abbrev pub is_unpublished : String → OutboxRow → Bool
is_unpublished id r = is_out id r && not (is_published r.out.state)

unfoldable pub mark_failed : String → String → Option ℕ → Db → Db
mark_failed id error retry db = record db {
  outbox =
      update (is_unpublished id)
        (λ r. record r {
          out = record r.out {
            state = failed;
            attempts = suc r.out.attempts;
            next_retry_at = retry;
            last_error = some error;
          };
        })
        db.outbox;
}

unfoldable pub mark_dead_letter : String → String → Db → Db
mark_dead_letter id error db = set_intent_state id abandoned (record db {
  outbox =
      update (is_unpublished id)
        (λ r. record r {
          out = record r.out {
            state = OutboxState.dead_letter;
            next_retry_at = none;
            last_error = some error;
          };
        })
        db.outbox;
})

abbrev pub is_due_state : OutboxState → Bool
is_due_state OutboxState.pending = true
is_due_state failed = true
is_due_state _ = false

abbrev pub ready_at : Option ℕ → Option ℕ → Bool
ready_at none _ = true
ready_at (some now) none = true
ready_at (some now) (some at) = leb at now

-- A row of DUE_QUERY's `candidate`: the outbox row with what the join gives, `COALESCE(turn_id,
-- logical_id)` and the intent's ordinal.
pub record Candidate : Type 0 where
  pub row : OutboxRow
  pub group_id : String
  pub ordinal : Option ℕ

abbrev pub join : OutboxRow → Option IntentRow → Candidate
join r none = record { row = r; group_id = r.out.logical_id; ordinal = none }
join r (some i) = record { row = r; group_id = i.intent.turn_id; ordinal = some i.intent.ordinal }

unfoldable pub candidates : Option ℕ → Db → List Candidate
candidates now db =
    map (λ r. join r (find (is_intent r.out.logical_id) db.output_intents))
      (select (λ r. is_due_state r.out.state && ready_at now r.out.next_retry_at) db.outbox)

min_of : Option ℕ → ℕ → Option ℕ
min_of none n = some n
min_of (some m) n = if leb m n then some m else some n

-- MIN(created_at) over the candidates of a group.
group_at : String → List Candidate → Option ℕ
unfolding min_of
group_at g [] = none
group_at g (c ∷ cs) =
    let rest = group_at g cs in if c.group_id == g then min_of rest c.row.created_at else rest

-- NULL comes first in ascending order.
abbrev pub nulls_first : Option ℕ → Option ℕ → Ordering
nulls_first none none = Ordering.eq
nulls_first none (some _) = Ordering.lt
nulls_first (some _) none = Ordering.gt
nulls_first (some a) (some b) = by_number a b

-- The ORDER BY of DUE_QUERY; `all` are the candidates over which the groups' times are taken.
abbrev due_order : List Candidate → Candidate → Candidate → Bool
unfolding group_at
due_order all a b = not_after (
    then_by (nulls_first (group_at a.group_id all) (group_at b.group_id all)) (
      then_by (by_text a.group_id b.group_id) (
        then_by (nulls_first a.ordinal b.ordinal) (
          then_by (by_number a.row.created_at b.row.created_at)
            (by_text a.row.out.logical_id b.row.out.logical_id)))))

-- DUE_QUERY at `@now`, where NULL (`none`) turns the backoff filter off.
unfoldable pub due : Option ℕ → Db → List OutboxRecord
unfolding due_order
due now db = map (λ c. c.row.out) (sort_by (due_order (candidates now db)) (candidates now db))

unfoldable pub due_publishes : ℕ → Db → List OutboxRecord
due_publishes now db = due (some now) db

unfoldable pub unpublished : Db → List OutboxRecord
unpublished db = due none db

abbrev pub is_pending : OutputIntentState → Bool
is_pending OutputIntentState.pending = true
is_pending _ = false

unfoldable pub unsigned_intents : Db → List OutputIntent
unsigned_intents db =
    map (λ r. r.intent)
      (sort_by
        (λ a b. not_after (
          then_by (by_text a.intent.turn_id b.intent.turn_id) (
            then_by (by_number a.intent.ordinal b.intent.ordinal)
              (by_text a.intent.logical_id b.intent.logical_id))))
        (select (λ r. is_pending r.intent.state && not (any (is_out r.intent.logical_id) db.outbox))
          db.output_intents))

abbrev pub later : ℕ → Option ℕ → ℕ
later n none = n
later n (some m) = max n m

-- MAX(created_at) over the intents of a turn.
unfoldable pub latest_of : String → List IntentRow → Option ℕ
latest_of turn [] = none
latest_of turn (r ∷ rs) =
    let rest = latest_of turn rs in
    if r.intent.turn_id == turn then some (later r.created_at rest) else rest

unfoldable pub latest_intent_at : String → Db → Option ℕ
unfolding latest_of
latest_intent_at turn db = latest_of turn db.output_intents
