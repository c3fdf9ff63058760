-- ===== src/State/Inbox.antt =====
-- src/state/inbox-repository.ts. A prepared statement is a function of the tables, a method calls
-- the statements as the source does.
pub mod Keys
use autogent.Prelude.{
  ℕ, String, Bool, true, false, ◌&&◌, Option, none, some, List, [], ◌∷◌, ◌++◌, map, ◌==◌,
  if◌then◌else◌,
}
use autogent.State.Table.{find, any, select, update, delete, sort_by}
use autogent.State.Order.{then_by, not_after, by_number, by_text, nulls_last}
use autogent.State.Rows.{
  InboxDisposition, queued, prompted, steer_pending, steer_delivered, completed, InboxRecord,
  TurnInputRow, Db,
}

abbrev pub is_event : String → InboxRecord → Bool
is_event id r = r.event_id == id

-- UNDELIVERED_SQL
abbrev pub is_undelivered : InboxDisposition → Bool
is_undelivered queued = true
is_undelivered steer_pending = true
is_undelivered _ = false

-- UNSETTLED_SQL
abbrev pub is_unsettled : InboxDisposition → Bool
is_unsettled queued = true
is_unsettled prompted = true
is_unsettled steer_pending = true
is_unsettled steer_delivered = true
is_unsettled _ = false

-- DELIVERED_SQL
abbrev pub is_delivered : InboxDisposition → Bool
is_delivered prompted = true
is_delivered steer_delivered = true
is_delivered _ = false

abbrev pub is_steer_pending : InboxDisposition → Bool
is_steer_pending steer_pending = true
is_steer_pending _ = false

-- ROW_ORDER
abbrev pub row_order : InboxRecord → InboxRecord → Bool
row_order a b = not_after (
    then_by (by_number a.received_at b.received_at)
      (then_by (nulls_last a.input_ordinal b.input_ordinal) (by_text a.event_id b.event_id)))

abbrev pub is_turn : String → Option String → Bool
is_turn id none = false
is_turn id (some t) = t == id

-- The result is `changes > 0`.
unfoldable pub insert_if_absent : InboxRecord → Db → Db × Bool
insert_if_absent record' db =
    if any (is_event record'.event_id) db.inbox
    then (db, false)
    else (record db { inbox = db.inbox ++ record' ∷ [] }, true)

unfoldable pub get : String → Db → Option InboxRecord
get id db = find (is_event id) db.inbox

abbrev pub keep_ordinal : Option String → Option ℕ → Option ℕ
keep_ordinal none n = none
keep_ordinal (some _) n = n

abbrev pub with_disposition : InboxDisposition → Option (Option String) → InboxRecord → InboxRecord
with_disposition d none r = record r { disposition = d }
with_disposition d (some t) r = record r {
  disposition = d;
  turn_id = t;
  input_ordinal = keep_ordinal t r.input_ordinal;
}

-- The last argument of the method is `undefined` (`none`), `null` (`some none`) or an id.
unfoldable pub set_disposition : String → InboxDisposition → Option (Option String) → Db → Db
set_disposition id d turn db = record db {
  inbox = update (is_event id) (with_disposition d turn) db.inbox;
}

abbrev pub assigned : String → ℕ → InboxDisposition → InboxRecord → InboxRecord
assigned turn n d r = record r { turn_id = some turn; input_ordinal = some n; disposition = d }

unfoldable pub assign_to_turn : String → String → ℕ → InboxDisposition → Db → Db
assign_to_turn id turn n d db = record db {
  inbox = update (is_event id) (assigned turn n d) db.inbox;
}

-- The undelivered rows of a channel, oldest first.
unfoldable pub pending_for_channel : String → Db → List InboxRecord
pending_for_channel channel db =
    sort_by row_order
      (select (λ r. r.channel_id == channel && is_undelivered r.disposition) db.inbox)

unfoldable pub complete_turn_inputs : String → Db → Db
complete_turn_inputs turn db = record db {
  inbox =
      update (λ r. is_turn turn r.turn_id && is_delivered r.disposition)
        (λ r. record r { disposition = completed }) db.inbox;
}

abbrev pub requeued : InboxRecord → InboxRecord
requeued r = record r { disposition = queued; turn_id = none; input_ordinal = none }

abbrev pub is_steer_pending_event : String → InboxRecord → Bool
is_steer_pending_event id r = is_event id r && is_steer_pending r.disposition

abbrev pub turn_of : Option InboxRecord → Option String
turn_of none = none
turn_of (some r) = r.turn_id

unfoldable pub drop_turn_input : Option String → String → List TurnInputRow → List TurnInputRow
drop_turn_input none id rows = rows
drop_turn_input (some turn) id rows = delete (λ r. r.turn_id == turn && r.event_id == id) rows

-- The turn input row goes with a released steer.
unfoldable pub release_steer_pending : String → Db → Db × Bool
unfolding drop_turn_input
release_steer_pending id db =
    if any (is_steer_pending_event id) db.inbox
    then (
      record db {
        inbox = update (is_steer_pending_event id) requeued db.inbox;
        turn_inputs = drop_turn_input (turn_of (get id db)) id db.turn_inputs;
      },
      true,
    )
    else (db, false)

unfoldable pub distinct : List String → List String
distinct [] = []
distinct (x ∷ xs) = let rest = distinct xs in if any (λ y. y == x) rest then rest else x ∷ rest

unfoldable pub unsettled_channels : Db → List String
unfolding distinct
unsettled_channels db =
    sort_by (λ a b. not_after (by_text a b))
      (distinct (map (λ r. r.channel_id) (select (λ r. is_unsettled r.disposition) db.inbox)))

unfoldable pub unsettled_for_channel : String → Db → List InboxRecord
unsettled_for_channel channel db =
    sort_by row_order (select (λ r. r.channel_id == channel && is_unsettled r.disposition) db.inbox)
