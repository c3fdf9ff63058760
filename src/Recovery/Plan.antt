-- ===== src/Recovery/Plan.antt =====
-- What `planRecovery` of src/state/recovery.ts takes up: every row that is owed to the relay, and every
-- message that nobody answered.
use autogent.Prelude.{
  ◌≢◌, ◌≤◌, false≢true, ℕ, ◌≡◌, refl, sym, ◌∙◌, ap, String, true, false, Option, none, some, List,
  [], ◌∷◌, Bool-cases, inl, inr, arith, ◌==◌, eq_iff,
}
use mathlib.Core.Path.{subst}
use mathlib.Core.List.{Memᴰ}
use mathlib.Core.List.Memᴰ
use autogent.State.Table.{any}
use autogent.State.Table.Members.{mem-sort_by, mem-select, of_sort_by, of_select, of_find}
use autogent.State.Rows.{
  Db, InboxRecord, InboxDisposition, queued, prompted, steer_pending, steer_delivered, completed,
  rejected, dead_letter, TurnInputRow, IntentRow,
}
use autogent.State.Turns.{inputs}
use autogent.State.Inbox.{
  is_unsettled, unsettled_channels, unsettled_for_channel, distinct, row_order,
}
use autogent.State.Outbox.{latest_of, later, latest_intent_at}
use autogent.Recovery.{
  is_after, answered_after, RecoveryPlan, RequeuedInput, ReplayCandidate, DeadLetter, Sorted,
  dead_letter_of, sort_unpublished, is_later, is_answered, input_of, delivered_at_of,
  consider_replay, replay_of, replay_order, replays, replay_channels, plan_requeue, plan_recovery,
}

mem-of_any : (a : String) (xs : List String) → any (λ y. y == a) xs ≡ true → Memᴰ a xs
unfolding any
mem-of_any a [] h = absurd (false≢true h)
mem-of_any a (x ∷ xs) h = elim (Bool-cases (x == a)) [
  | inl t ↦ Memᴰ.head (sym ((eq_iff x a).0 t))
  | inr t ↦ Memᴰ.tail (mem-of_any a xs (rw t at h))
]

mem-distinct : (a : String) (xs : List String) → Memᴰ a xs → Memᴰ a (distinct xs)
unfolding distinct
mem-distinct a [] m = elim m [ ]
mem-distinct a (x ∷ xs) (Memᴰ.head e) = elim (Bool-cases (any (λ y. y == x) (distinct xs))) [
  | inl t ↦ rw t (Memᴰ.cast e (mem-of_any x (distinct xs) t))
  | inr t ↦ rw t (Memᴰ.head e)
]
mem-distinct a (x ∷ xs) (Memᴰ.tail m) = elim (Bool-cases (any (λ y. y == x) (distinct xs))) [
  | inl t ↦ rw t (mem-distinct a xs m)
  | inr t ↦ rw t (Memᴰ.tail (mem-distinct a xs m))
]

module _ (db : Db) (r : InboxRecord) (c : ReplayCandidate) where
  mem-replays :
      (rs : List InboxRecord) → consider_replay db r ≡ some c → Memᴰ r rs → Memᴰ c (replays db rs)
  unfolding replays
  mem-replays [] e m = elim m [ ]
  mem-replays (x ∷ xs) e (Memᴰ.head q) = rw (ap (consider_replay db) (sym q) ∙ e) (Memᴰ.head refl)
  mem-replays (x ∷ xs) e (Memᴰ.tail m) = kept (consider_replay db x) (mem-replays xs e m)
    where
      kept :
          (o : Option ReplayCandidate)
          → Memᴰ c (replays db xs)
          → Memᴰ c (autogent.Recovery.keep o (replays db xs))
      kept none k = k
      kept (some d) k = Memᴰ.tail k

  mem-replay_channels :
      (channels : List String)
      → consider_replay db r ≡ some c
      → Memᴰ r (unsettled_for_channel r.channel_id db)
      → Memᴰ r.channel_id channels
      → Memᴰ c.input (replay_channels db channels)
  unfolding replay_channels
  mem-replay_channels [] e m k = elim k [ ]
  mem-replay_channels (x ∷ xs) e m (Memᴰ.head q) = Memᴰ.append_left _ (
      Memᴰ.map (λ x. x.input)
        (mem-sort_by replay_order c _
          (mem-replays _ e (subst (λ k. Memᴰ r (unsettled_for_channel k db)) q m))))
  mem-replay_channels (x ∷ xs) e m (Memᴰ.tail k) =
      Memᴰ.append_right _ (mem-replay_channels xs e m k)

replayed :
    (db : Db) (r : InboxRecord)
    → is_answered db r.turn_id (delivered_at_of (input_of r.turn_id r.event_id db)) ≡ false
    → (c : ReplayCandidate) × (consider_replay db r ≡ some c) × (c.input.inbox_record ≡ r)
unfolding consider_replay replay_of
replayed db r n = (replay_of db r, rw n refl, refl)

later_before :
    (n : ℕ) (o : Option ℕ) (d : ℕ)
    → n ≤ d
    → is_after o d ≡ false
    → is_after (some (later n o)) d ≡ false
later_before n none d h k = ground (arith, h)
later_before n (some m) d h k = ground (arith, h, k)

latest_of-before :
    (turn : String) (d : ℕ) (rows : List IntentRow)
    → ((x : IntentRow) → Memᴰ x rows → x.intent.turn_id ≡ turn → x.created_at ≤ d)
    → is_after (latest_of turn rows) d ≡ false
unfolding latest_of
latest_of-before turn d [] h = refl
latest_of-before turn d (x ∷ xs) h =
    let rest = latest_of-before turn d xs (λ y m e. h y (Memᴰ.tail m) e) in
    elim (Bool-cases (x.intent.turn_id == turn)) [
      | inl t ↦ rw t (
          later_before x.created_at (latest_of turn xs) d
            (h x (Memᴰ.head refl) ((eq_iff x.intent.turn_id turn).0 t)) rest)
      | inr f ↦ rw f rest
    ]

-- Nobody answered a message: its turn produced no output after the message was delivered to it.
abbrev pub IsUnanswered : Db → InboxRecord → Type 0
IsUnanswered db r =
    (turn : String) (i : TurnInputRow) (d : ℕ) (x : IntentRow)
    → r.turn_id ≡ some turn
    → Memᴰ i db.turn_inputs
    → i.turn_id ≡ turn
    → i.event_id ≡ r.event_id
    → i.delivered_at ≡ some d
    → Memᴰ x db.output_intents
    → x.intent.turn_id ≡ turn
    → x.created_at ≤ d

IsUnanswered-not :
    (db : Db) (r : InboxRecord)
    → IsUnanswered db r
    → is_answered db r.turn_id (delivered_at_of (input_of r.turn_id r.event_id db)) ≡ false
unfolding is_answered answered_after input_of latest_intent_at inputs
IsUnanswered-not db r h = turn_by_turn r.turn_id refl
  where
    input_by_input :
        (turn : String) (o : Option TurnInputRow)
        → r.turn_id ≡ some turn
        → input_of (some turn) r.event_id db ≡ o
        → is_answered db (some turn) (delivered_at_of o) ≡ false
    input_by_input turn none e f = refl
    input_by_input turn (some i) e f = time_by_time i.delivered_at refl
      where
        found : (i.event_id == r.event_id ≡ true) × Memᴰ i (inputs turn db)
        found = of_find (λ i. i.event_id == r.event_id) i (inputs turn db) f

        in_turn : (i.turn_id == turn ≡ true) × Memᴰ i db.turn_inputs
        in_turn = of_select (λ i. i.turn_id == turn) i db.turn_inputs (of_sort_by _ i _ found.1)

        time_by_time : (o : Option ℕ) → i.delivered_at ≡ o → is_answered db (some turn) o ≡ false
        time_by_time none k = refl
        time_by_time (some d) k = latest_of-before turn d db.output_intents (λ x m t.
            h turn i d x e in_turn.1 ((eq_iff i.turn_id turn).0 in_turn.0)
              ((eq_iff i.event_id r.event_id).0 found.0) k m t)

    turn_by_turn :
        (o : Option String)
        → r.turn_id ≡ o
        → is_answered db o (delivered_at_of (input_of o r.event_id db)) ≡ false
    turn_by_turn none e = refl
    turn_by_turn (some turn) e = input_by_input turn (input_of (some turn) r.event_id db) e refl

unsettled :
    (d : InboxDisposition) → d ≢ completed → d ≢ rejected → d ≢ dead_letter → is_unsettled d ≡ true
unsettled queued a b c = refl
unsettled prompted a b c = refl
unsettled steer_pending a b c = refl
unsettled steer_delivered a b c = refl
unsettled completed a b c = absurd (a refl)
unsettled rejected a b c = absurd (b refl)
unsettled dead_letter a b c = absurd (c refl)

-- A message of the inbox that is neither completed nor rejected nor given up is in the plan, to be run
-- again, unless its turn produced an output later than the message was delivered to it: a message
-- without a turn, one that was not delivered, and one after which its turn stored no output.
pub plan_recovery-replays :
    (limit now : ℕ) (db : Db) (r : InboxRecord)
    → Memᴰ r db.inbox
    → r.disposition ≢ completed
    → r.disposition ≢ rejected
    → r.disposition ≢ dead_letter
    → IsUnanswered db r
    → (i : RequeuedInput) × (i.inbox_record ≡ r) × Memᴰ i (plan_recovery limit now db).requeue
unfolding plan_recovery plan_requeue unsettled_channels unsettled_for_channel
plan_recovery-replays limit now db r m a b c unanswered =
    let (c, e, same) = replayed db r (IsUnanswered-not db r unanswered) in
    (c.input, same, mem-replay_channels db r c (unsettled_channels db) e in_channel channel)
  where
    u : is_unsettled r.disposition ≡ true
    u = unsettled r.disposition a b c

    in_channel : Memᴰ r (unsettled_for_channel r.channel_id db)
    in_channel =
        mem-sort_by row_order r _
          (mem-select _ r db.inbox (ground (arith, u, eq_iff r.channel_id r.channel_id)) m)

    channel : Memᴰ r.channel_id (unsettled_channels db)
    channel = mem-sort_by _ r.channel_id _ (
        mem-distinct r.channel_id _ (
          Memᴰ.map (λ r. r.channel_id)
            (mem-select (λ r. is_unsettled r.disposition) r db.inbox u m)))
