-- ===== src/State/Inbox/Keys.antt =====
-- An event of the inbox of src/state/inbox-repository.ts by its id.
use autogent.Prelude.{
  none, ◌≡◌, refl, ◌∙◌, ap, String, Bool, true, false, some, List, [], ◌∷◌, ◌++◌, arith, Bool-cases,
  inl, inr, eq_iff, if◌then◌else◌,
}
use mathlib.Core.Option
use autogent.State.Rows.{queued, InboxRecord, steer_pending, Db}
use autogent.State.Table.{find, any}
use autogent.State.Table.Laws.{
  find-append, any-append, find-update, any-find, any-delete, or_else, when, find_sound,
}
use autogent.State.Inbox.{
  is_event, insert_if_absent, get, requeued, is_steer_pending_event, release_steer_pending,
  drop_turn_input, turn_of,
}
use autogent.State.Turns.{is_input}

-- A relay that replays an event, even with other contents, does not touch the row that was stored first
-- under its id: the second insertion reports that it changed nothing, and whoever reads the id
-- after the first one finds the row that was there before it or, if there was none, its own.
pub insert_if_absent_once :
    (r again : InboxRecord) (db : Db)
    → again.event_id ≡ r.event_id
    → (get r.event_id (insert_if_absent r db).0 ≡ or_else (get r.event_id db) (some r))
      × (insert_if_absent again (insert_if_absent r db).0 ≡ ((insert_if_absent r db).0, false))
unfolding insert_if_absent get any find
insert_if_absent_once r again db e = elim (Bool-cases (any (is_event r.event_id) db.inbox)) [
  | inl t ↦ rw (e, t) (ground (arith, any-find (is_event r.event_id) db.inbox, t), rw t refl)
  | inr t ↦
      rw (e, t)
        (
          find-append (is_event r.event_id) db.inbox (r ∷ [])
              ∙ ap (or_else (find (is_event r.event_id) db.inbox)) own,
          rw there refl,
        )
]
  where
    own : find (is_event r.event_id) (r ∷ []) ≡ some r
    own = ground (arith, eq_iff r.event_id r.event_id)

    there : any (is_event r.event_id) (db.inbox ++ r ∷ []) ≡ true
    there =
        any-append (is_event r.event_id) db.inbox (r ∷ [])
        ∙ ground (arith, eq_iff r.event_id r.event_id)

any_of_find :
    (p q : InboxRecord → Bool) (rows : List InboxRecord) (r : InboxRecord)
    → find p rows ≡ some r
    → q r ≡ true
    → any q rows ≡ true
unfolding any find
any_of_find p q [] r e h = cc
any_of_find p q (x ∷ xs) r e h = ground (arith, any_of_find p q xs r)

-- A steer that is released is queued again, without a turn and without an ordinal in one and otherwise as
-- it was; the row by which it was an input of its turn is gone; and the caller is told that it moved.
pub release_steer_pending_frees :
    (id turn : String) (r : InboxRecord) (db : Db)
    → get id db ≡ some r
    → r.disposition ≡ steer_pending
    → r.turn_id ≡ some turn
    → ((release_steer_pending id db).1 ≡ true)
      × (get id (release_steer_pending id db).0
          ≡ some (record r { disposition = queued; turn_id = none; input_ordinal = none }))
      × (any (is_input turn id) (release_steer_pending id db).0.turn_inputs ≡ false)
unfolding release_steer_pending get drop_turn_input
release_steer_pending_frees id turn r db e d t = rw moved (
  refl,
  find-update (is_event id) (is_steer_pending_event id) requeued db.inbox (λ _. refl)
      ∙ ap (Option.map (when (is_steer_pending_event id) requeued)) e
      ∙ ap some (now_queued),
  ap (λ o. any (is_input turn id) (drop_turn_input o id db.turn_inputs)) (ap turn_of e ∙ t)
      ∙ any-delete (is_input turn id) db.turn_inputs,
)
  where
    pending : is_steer_pending_event id r ≡ true
    pending = ground (arith, find_sound (is_event id) db.inbox e, d)

    moved : any (is_steer_pending_event id) db.inbox ≡ true
    moved = any_of_find (is_event id) (is_steer_pending_event id) db.inbox r e pending

    now_queued : when (is_steer_pending_event id) requeued r ≡ requeued r
    now_queued = ap (λ b. if b then requeued r else r) pending
