-- ===== src/Runtime/Rows.antt =====
-- What src/runtime/app-runtime.ts leaves in the inbox, and what its calls say to the actors.
use autogent.Prelude.{
  ℕ, ◌+◌, ◌≤◌, ◌≡◌, refl, ◌∙◌, ap, String, Option, none, some, List, [], ◌∷◌, ◌++◌, arith,
  if◌then◌else◌, if_cases, ◌==◌,
}
use autogent.JsMap
use autogent.JsMap.{JsMap}
use autogent.Registry
use autogent.Runtime.{Waiting}
use autogent.Registry.{
  ActorCall, submit_call, cancel_call, rotate_call, close_call, ChannelRegistry, ChannelDescriptor,
  tell, tell_each, forget,
}
use autogent.State.Rows.{Db, InboxRecord, InboxDisposition, queued}
use autogent.State.Table.{any}
use autogent.State.Table.Laws.{any-update}
use autogent.State.Inbox.{is_event, set_disposition, with_disposition}
use autogent.State.Outbox.{mark_dead_letter, set_intent_state}
use autogent.State.Turns.{set_state}
use autogent.Recovery.{
  InterruptedTurn, RequeuedInput, DeadLetter, RecoveryPlan, interrupt_all, requeue_all,
  dead_letter_all, apply_recovery,
}

abbrev pub is_submit : String → ActorCall → ℕ
is_submit id (submit_call e) = if e.id == id then 1 else 0
is_submit id _ = 0

-- How often an event was submitted to actors.
unfoldable pub submits : String → List (ℕ × ActorCall) → ℕ
submits id [] = 0
submits id ((actor, call) ∷ calls) = is_submit id call + submits id calls

-- How often an event waits for the gate.
unfoldable pub waits : String → List Waiting → ℕ
waits id [] = 0
waits id ((e, channel, asked) ∷ ws) = (if e.id == id then 1 else 0) + waits id ws

-- Whether the inbox has an event, as a number.
unfoldable pub stored : String → Db → ℕ
stored id db = if any (is_event id) db.inbox then 1 else 0

pub submits-append :
    (id : String) (xs ys : List (ℕ × ActorCall))
    → submits id (xs ++ ys) ≡ submits id xs + submits id ys
unfolding submits
submits-append id [] ys = omega arith
submits-append id ((a, call) ∷ xs) ys = omega (arith, submits-append id xs ys)

pub waits-append :
    (id : String) (xs ys : List Waiting) → waits id (xs ++ ys) ≡ waits id xs + waits id ys
unfolding waits
waits-append id [] ys = omega arith
waits-append id ((e, channel, asked) ∷ xs) ys = omega (arith, waits-append id xs ys)

-- A call that is not a submission leaves the count.
pub told :
    (id : String) (o : Option ℕ) (call : ActorCall) (g : ChannelRegistry)
    → submits id (tell o call g).calls ≤ submits id g.calls + is_submit id call
unfolding tell submits
told id none call g = omega arith
told id (some i) call g = omega (arith, submits-append id g.calls ((i, call) ∷ []))

pub forgotten :
    (id channel : String) (o : Option ℕ) (g : ChannelRegistry)
    → submits id (forget o channel g).calls ≤ submits id g.calls
unfolding forget tell submits
forgotten id channel none g = omega arith
forgotten id channel (some i) g = omega (arith, submits-append id g.calls ((i, close_call) ∷ []))

closing_calls : (id : String) (m : JsMap ℕ) → submits id (tell_each close_call m) ≡ 0
unfolding submits tell_each
closing_calls id [] = refl
closing_calls id ((l, i) ∷ m) = omega (arith, closing_calls id m)

pub closing :
    (id : String) (g : ChannelRegistry)
    → submits id (Registry.begin_close_all g).calls ≤ submits id g.calls
unfolding Registry.begin_close_all
closing id g =
    omega
      (arith, submits-append id g.calls (tell_each close_call g.actors), closing_calls id g.actors)

pub added :
    (id : String) (d : ChannelDescriptor) (g : ChannelRegistry)
    → submits id (Registry.add d g).calls ≤ submits id g.calls
unfolding Registry.add
added id d g =
    if_cases (λ (h : ChannelRegistry). submits id h.calls ≤ submits id g.calls)
      (JsMap.has d.channel_id g.actors) (λ _. omega arith) (λ _. omega arith)

same_event :
    (id : String) (d : InboxDisposition) (t : Option (Option String)) (x : InboxRecord)
    → is_event id (with_disposition d t x) ≡ is_event id x
same_event id d none x = refl
same_event id d (some t) x = refl

pub set_disposition-stored :
    (id event : String) (d : InboxDisposition) (t : Option (Option String)) (db : Db)
    → stored id (set_disposition event d t db) ≡ stored id db
unfolding stored set_disposition
set_disposition-stored id event d t db =
    ap (λ b. if b then 1 else 0)
      (any-update (is_event id) (is_event event) (with_disposition d t) db.inbox
        (same_event id d t))

interrupt_all-stored :
    (id : String) (now : ℕ) (ts : List InterruptedTurn) (db : Db)
    → stored id (interrupt_all now ts db) ≡ stored id db
unfolding stored interrupt_all set_state
interrupt_all-stored id now [] db = refl
interrupt_all-stored id now (t ∷ ts) db = interrupt_all-stored id now ts _

requeue_all-stored :
    (id : String) (is : List RequeuedInput) (db : Db) → stored id (requeue_all is db) ≡ stored id db
unfolding requeue_all
requeue_all-stored id [] db = refl
requeue_all-stored id (i ∷ is) db =
    requeue_all-stored id is _ ∙ set_disposition-stored id i.inbox_record.event_id queued none db

dead_letter_all-stored :
    (id : String) (ds : List DeadLetter) (db : Db)
    → stored id (dead_letter_all ds db) ≡ stored id db
unfolding stored dead_letter_all mark_dead_letter set_intent_state
dead_letter_all-stored id [] db = refl
dead_letter_all-stored id (d ∷ ds) db = dead_letter_all-stored id ds _

pub apply_recovery-stored :
    (id : String) (plan : RecoveryPlan) (now : ℕ) (db : Db)
    → stored id (apply_recovery plan now db) ≡ stored id db
unfolding apply_recovery
apply_recovery-stored id plan now db =
    dead_letter_all-stored id plan.dead_letter _
    ∙ (requeue_all-stored id plan.requeue _ ∙ interrupt_all-stored id now plan.interrupt db)
