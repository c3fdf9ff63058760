-- ===== src/Tests/Inboxes.antt =====
-- The theorems on the inbox at concrete rows.
use autogent.Prelude.{◌≡◌, refl, true, false, none, some, [], ◌∷◌}
use autogent.State.Rows.{InboxRecord, steer_pending, steer, pending, queued, Db}
use autogent.State.Table.{any, find}
use autogent.State.Table.Laws.{or_else}
use autogent.State.Inbox.{insert_if_absent, get, release_steer_pending}
use autogent.State.Turns.{is_input}
use autogent.State.Inbox.Keys.{insert_if_absent_once, release_steer_pending_frees}
use autogent.Tests.Samples.{inbox_row, db}

insert_if_absent_once_example :
    (get "fourth" (insert_if_absent (inbox_row "fourth" queued) db).0
      ≡ or_else (get "fourth" db) (some (inbox_row "fourth" queued)))
    × (insert_if_absent
          (inbox_row "fourth" steer_pending)
          (insert_if_absent (inbox_row "fourth" queued) db).0
        ≡ ((insert_if_absent (inbox_row "fourth" queued) db).0, false))
insert_if_absent_once_example =
    insert_if_absent_once (inbox_row "fourth" queued) (inbox_row "fourth" steer_pending) db refl

abbrev steering : InboxRecord
steering = record (inbox_row "second" steer_pending) {
  turn_id = some "turn-1";
  input_ordinal = some 1;
}

abbrev steered_db : Db
steered_db = record db {
  inbox = steering ∷ [];
  turn_inputs =
      (record {
        turn_id = "turn-1";
        event_id = "second";
        role = steer;
        ordinal = 1;
        delivery_state = pending;
        delivered_at = none;
      })
      ∷ [];
}

release_steer_pending_frees_example :
    ((release_steer_pending "second" steered_db).1 ≡ true)
    × (get "second" (release_steer_pending "second" steered_db).0
        ≡ some (record steering { disposition = queued; turn_id = none; input_ordinal = none }))
    × (any (is_input "turn-1" "second") (release_steer_pending "second" steered_db).0.turn_inputs
        ≡ false)
unfolding get find
release_steer_pending_frees_example =
    release_steer_pending_frees "second" "turn-1" steering steered_db refl refl refl
