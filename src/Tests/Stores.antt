-- ===== src/Tests/Stores.antt =====
-- The theorems on the semaphore, the tables, the publisher and recovery at concrete inputs.
use autogent.Prelude.{◌+◌, ◌≤◌, ◌≡◌, refl, ◌⊎◌, Bool, true, false, none, some, [], ◌∷◌, length}
use mathlib.Core.List.{Perm, Memᴰ}
use native.Mathlib.Nat.{le_refl}
use autogent.Semaphore.{Semaphore, create, acquire, release}
use autogent.Semaphore.Invariant.{IsValid}
use autogent.Semaphore.Traces.{
  acquire_call, release_call, resize_call, step, run, run-IsValid, step_never_overcommits,
  all_released-no_waiters,
}
use autogent.Prelude.Int.{pos}
use autogent.State.Table.{find, any}
use autogent.State.Rows.{prompted}
use autogent.State.Turns.{unfinished}
use autogent.State.Outbox.Durable.{
  mark_failed_call, mark_published_call, put_signed_call, writes, HasLater, writes_later,
}
use autogent.Publisher.{Drain, drain_once, drain_from, default_options, turn_of}
use autogent.Publisher.Order.{due_records}
use autogent.Publisher.Gaps.{Continues, gap_not_filled, drain_once_complete}
use autogent.Recovery.{RequeuedInput, plan_recovery, apply_recovery}
use autogent.Recovery.Closed.{apply_recovery-unfinished}
use autogent.Recovery.Plan.{IsUnanswered, plan_recovery-replays}
use autogent.Recovery.Owed.{Goes, plan_recovery-owed}
use autogent.Tests.Samples.{db, out_row, inbox_row}

abbrev two : Semaphore
two = record { available = pos 2; permits = 2; waiters = []; grants = []; freed = [] }

run-IsValid_example :
    IsValid
      (run (acquire_call ∷ acquire_call ∷ acquire_call ∷ resize_call 1 ∷ release_call 0 ∷ []) two)
unfolding create
run-IsValid_example =
    run-IsValid 2 (acquire_call ∷ acquire_call ∷ acquire_call ∷ resize_call 1 ∷ release_call 0 ∷ [])
      refl

step_never_overcommits_example :
    let s = run (acquire_call ∷ acquire_call ∷ resize_call 1 ∷ []) two in
    (length (step acquire_call s).grants
      ≤ length (step acquire_call s).freed + (step acquire_call s).permits)
    ⊎ (length (step acquire_call s).grants + length s.freed
        ≤ length s.grants + length (step acquire_call s).freed)
unfolding create
step_never_overcommits_example =
    step_never_overcommits acquire_call (run (acquire_call ∷ acquire_call ∷ resize_call 1 ∷ []) two)
      (run-IsValid 2 (acquire_call ∷ acquire_call ∷ resize_call 1 ∷ []) refl)

all_released-no_waiters_example :
    (run
      (acquire_call
        ∷ acquire_call
        ∷ acquire_call
        ∷ release_call 0
        ∷ release_call 1
        ∷ release_call 2
        ∷ [])
      two).waiters
    ≡ []
unfolding create run step acquire release
all_released-no_waiters_example =
    all_released-no_waiters 2
      (acquire_call
        ∷ acquire_call
        ∷ acquire_call
        ∷ release_call 0
        ∷ release_call 1
        ∷ release_call 2
        ∷ [])
      refl (le_refl 3)

writes_later_example : HasLater "turn-1:message:0" out_row (
    writes
      (put_signed_call (record out_row.out { event_id = "other" }) 180
        ∷ mark_published_call "turn-1:message:0"
        ∷ mark_failed_call "turn-1:message:0" "late" none
        ∷ [])
      db)
unfolding find
writes_later_example =
    writes_later
      (put_signed_call (record out_row.out { event_id = "other" }) 180
        ∷ mark_published_call "turn-1:message:0"
        ∷ mark_failed_call "turn-1:message:0" "late" none
        ∷ [])
      "turn-1:message:0" out_row db refl

abbrev relay : Bool → Drain
relay ok = record {
  now = 1000;
  failed_at = λ _. 1001;
  publish = λ _ _. record { ok = ok; terminal = false; message = "rate-limited" };
  stopped = λ _. false;
}

gap_not_filled_example : Continues (turn_of out_row.out) (out_row.out ∷ []) (
    drain_from default_options
      (relay false)
      0
      (out_row.out ∷ (record out_row.out { logical_id = "turn-1:message:1" }) ∷ [])
      (record { db = db; blocked_turns = []; published = 0; sent = [] }))
unfolding any
gap_not_filled_example =
    gap_not_filled default_options (relay false) 0 out_row.out
      ((record out_row.out { logical_id = "turn-1:message:1" }) ∷ [])
      (record { db = db; blocked_turns = []; published = 0; sent = [] }) refl refl refl

drain_once_complete_example :
    Perm (drain_once default_options (relay true) db).sent (due_records (some 1000) db)
    × ((drain_once default_options (relay true) db).published
        ≡ length (drain_once default_options (relay true) db).sent)
drain_once_complete_example =
    drain_once_complete default_options (relay true) db (λ _. refl) (λ _ _. refl)

apply_recovery-unfinished_example :
    unfinished (apply_recovery (plan_recovery 8 1000 db) 1001 db) ≡ []
apply_recovery-unfinished_example = apply_recovery-unfinished 8 1000 1001 db

plan_recovery-owed_example :
    Goes 8 1000 out_row.out
      (plan_recovery 8 1000 db).resend
      (plan_recovery 8 1000 db).deferred
      (plan_recovery 8 1000 db).dead_letter
plan_recovery-owed_example =
    plan_recovery-owed 8 1000 db out_row (Memᴰ.head refl) (λ h. cc) (λ h. cc)

first-IsUnanswered : IsUnanswered db (inbox_row "first" prompted)
first-IsUnanswered turn i d x t m of_turn of_event at stored same = elim stored [ ]

plan_recovery-replays_example :
    (i : RequeuedInput) × (i.inbox_record ≡ inbox_row "first" prompted)
    × Memᴰ i (plan_recovery 8 1000 db).requeue
plan_recovery-replays_example =
    plan_recovery-replays 8 1000 db (inbox_row "first" prompted) (Memᴰ.head refl) (λ h. cc)
      (λ h. cc) (λ h. cc) first-IsUnanswered
