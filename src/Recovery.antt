-- ===== src/Recovery.antt =====
-- src/state/recovery.ts. The reads that `TurnLookup` memoises are the repositories' reads: the tables
-- do not change while the plan is made.
pub mod Closed
pub mod Plan
pub mod Owed
use Prim.Native.String.{◌++◌ as join}
use autogent.Prelude.{
  ℕ, zero, String, Bool, true, false, ◌&&◌, not, Option, none, some, List, [], ◌∷◌, ◌++◌, map, ◌==◌,
  leb, ltb, if◌then◌else◌,
}
use autogent.State.Table.{find, sort_by}
use autogent.State.Order.{then_by, not_after, by_number, by_text}
use autogent.State.Rows.{
  InboxRecord, queued, TurnState, interrupted, TurnRecord, TurnInputRole, TurnInputRow,
  OutputIntent, OutboxRecord, Db,
}
use autogent.State.Inbox.{set_disposition, unsettled_channels, unsettled_for_channel}
use autogent.State.Turns
use autogent.State.Outbox.{mark_dead_letter, unpublished, unsigned_intents, latest_intent_at}
use autogent.LogicalId.{show}

abbrev pub interrupted_stop_reason : String
interrupted_stop_reason = "crash_recovery"

abbrev pub default_max_publish_attempts : ℕ
default_max_publish_attempts = 8

pub record InterruptedTurn : Type 0 where
  pub turn_id : String
  pub channel_id : String
  pub thread_root_id : String
  pub primary_trigger_event_id : String
  pub primary_author_pubkey : String
  pub previous_state : TurnState
  pub stop_reason : String

pub record RequeuedInput : Type 0 where
  pub inbox_record : InboxRecord
  pub previous_turn_id : Option String
  pub role : Option TurnInputRole
  pub was_delivered : Bool

pub record DeadLetter : Type 0 where
  pub logical_id : String
  pub event_id : String
  pub attempts : ℕ
  pub reason : String

pub record RecoveryPlan : Type 0 where
  pub resend : List OutboxRecord
  pub deferred : List OutboxRecord
  pub sign : List OutputIntent
  pub interrupt : List InterruptedTurn
  pub requeue : List RequeuedInput
  pub dead_letter : List DeadLetter

abbrev pub to_interrupted : TurnRecord → InterruptedTurn
to_interrupted t = record {
  turn_id = t.turn_id;
  channel_id = t.channel_id;
  thread_root_id = t.thread_root_id;
  primary_trigger_event_id = t.primary_trigger_event_id;
  primary_author_pubkey = t.primary_author_pubkey;
  previous_state = t.state;
  stop_reason = interrupted_stop_reason;
}

-- A row of the outbox that recovery looks at goes to one of three lists.
pub record Sorted : Type 0 where
  pub resend : List OutboxRecord
  pub deferred : List OutboxRecord
  pub dead_letter : List DeadLetter

abbrev pub dead_letter_of : OutboxRecord → DeadLetter
dead_letter_of r = record {
  logical_id = r.logical_id;
  event_id = r.event_id;
  attempts = r.attempts;
  reason = join "publish retry budget exhausted after " (join (show r.attempts) " attempts");
}

abbrev pub is_later : ℕ → Option ℕ → Bool
is_later now none = false
is_later now (some at) = ltb now at

unfoldable pub sort_unpublished : ℕ → ℕ → List OutboxRecord → Sorted
sort_unpublished limit now [] = record { resend = []; deferred = []; dead_letter = [] }
sort_unpublished limit now (r ∷ rs) =
    let s = sort_unpublished limit now rs in
    if leb limit r.attempts
    then record s { dead_letter = dead_letter_of r ∷ s.dead_letter }
    else if is_later now r.next_retry_at
    then record s { deferred = r ∷ s.deferred }
    else record s { resend = r ∷ s.resend }

pub record ReplayCandidate : Type 0 where
  pub input : RequeuedInput
  pub group_id : String
  pub group_at : ℕ
  pub ordinal : ℕ

-- The reads of `TurnLookup`, where no turn id gives nothing.
unfoldable pub turn_of : Option String → Db → Option TurnRecord
turn_of none db = none
turn_of (some turn) db = Turns.get turn db

unfoldable pub input_of : Option String → String → Db → Option TurnInputRow
input_of none event db = none
input_of (some turn) event db = find (λ i. i.event_id == event) (Turns.inputs turn db)

abbrev pub delivered_at_of : Option TurnInputRow → Option ℕ
delivered_at_of none = none
delivered_at_of (some i) = i.delivered_at

abbrev pub role_of : Option TurnInputRow → Option TurnInputRole
role_of none = none
role_of (some i) = some i.role

abbrev pub is_after : Option ℕ → ℕ → Bool
is_after none n = false
is_after (some m) n = ltb n m

unfoldable pub answered_after : Db → String → ℕ → Bool
answered_after db turn delivered = is_after (latest_intent_at turn db) delivered

-- Whether the turn of an input produced output after the input was delivered.
unfoldable pub is_answered : Db → Option String → Option ℕ → Bool
unfolding answered_after
is_answered db (some turn) (some delivered) = answered_after db turn delivered
is_answered db _ _ = false

abbrev pub group_id_of : Option String → String → String
group_id_of none event = event
group_id_of (some turn) event = turn

abbrev pub group_at_of : Option TurnRecord → ℕ → ℕ
group_at_of none received = received
group_at_of (some t) received = t.started_at

abbrev pub ordinal_of : Option TurnInputRow → Option ℕ → ℕ
ordinal_of (some i) _ = i.ordinal
ordinal_of none (some n) = n
ordinal_of none none = 0

abbrev pub is_delivered : Option ℕ → Bool
is_delivered none = false
is_delivered (some _) = true

unfoldable pub replay_of : Db → InboxRecord → ReplayCandidate
unfolding turn_of input_of
replay_of db r =
    let input = input_of r.turn_id r.event_id db in
    record {
      input = record {
        inbox_record = r;
        previous_turn_id = r.turn_id;
        role = role_of input;
        was_delivered = is_delivered (delivered_at_of input);
      };
      group_id = group_id_of r.turn_id r.event_id;
      group_at = group_at_of (turn_of r.turn_id db) r.received_at;
      ordinal = ordinal_of input r.input_ordinal;
    }

unfoldable pub consider_replay : Db → InboxRecord → Option ReplayCandidate
unfolding is_answered input_of
consider_replay db r =
    if is_answered db r.turn_id (delivered_at_of (input_of r.turn_id r.event_id db))
    then none
    else some (replay_of db r)

-- `compareReplay`
abbrev pub replay_order : ReplayCandidate → ReplayCandidate → Bool
replay_order a b = not_after (
    then_by (by_number a.group_at b.group_at) (
      then_by (by_text a.group_id b.group_id) (
        then_by (by_number a.ordinal b.ordinal) (
          then_by (by_number a.input.inbox_record.received_at b.input.inbox_record.received_at)
            (by_text a.input.inbox_record.event_id b.input.inbox_record.event_id)))))

abbrev pub keep : Option ReplayCandidate → List ReplayCandidate → List ReplayCandidate
keep none cs = cs
keep (some c) cs = c ∷ cs

unfoldable pub replays : Db → List InboxRecord → List ReplayCandidate
replays db [] = []
replays db (r ∷ rs) = keep (consider_replay db r) (replays db rs)

unfoldable pub replay_channels : Db → List String → List RequeuedInput
unfolding replays
replay_channels db [] = []
replay_channels db (c ∷ cs) =
    map (λ x. x.input) (sort_by replay_order (replays db (unsettled_for_channel c db)))
    ++ replay_channels db cs

unfoldable pub plan_requeue : Db → List RequeuedInput
plan_requeue db = replay_channels db (unsettled_channels db)

unfoldable pub plan_recovery : ℕ → ℕ → Db → RecoveryPlan
plan_recovery limit now db =
    let s = sort_unpublished limit now (unpublished db) in
    record {
      resend = s.resend;
      deferred = s.deferred;
      sign = unsigned_intents db;
      interrupt = map to_interrupted (Turns.unfinished db);
      requeue = plan_requeue db;
      dead_letter = s.dead_letter;
    }

unfoldable pub interrupt_all : ℕ → List InterruptedTurn → Db → Db
interrupt_all now [] db = db
interrupt_all now (t ∷ ts) db =
    interrupt_all now ts (Turns.set_state t.turn_id interrupted (some (some t.stop_reason)) now db)

unfoldable pub requeue_all : List RequeuedInput → Db → Db
requeue_all [] db = db
requeue_all (i ∷ is) db = requeue_all is (set_disposition i.inbox_record.event_id queued none db)

unfoldable pub dead_letter_all : List DeadLetter → Db → Db
dead_letter_all [] db = db
dead_letter_all (d ∷ ds) db = dead_letter_all ds (mark_dead_letter d.logical_id d.reason db)

-- One transaction, of calls that do not throw.
unfoldable pub apply_recovery : RecoveryPlan → ℕ → Db → Db
apply_recovery plan now db =
    dead_letter_all plan.dead_letter
      (requeue_all plan.requeue (interrupt_all now plan.interrupt db))
