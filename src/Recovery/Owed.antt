-- ===== src/Recovery/Owed.antt =====
-- What `planRecovery` of src/state/recovery.ts does with the outbox.
use autogent.Prelude.{
  ℕ, ◌≤◌, ◌<◌, ◌≡◌, ◌≢◌, ◌⊎◌, inl, inr, refl, sym, true, false, ◌&&◌, Option, none, some, List, [],
  ◌∷◌, Bool-cases, arith, leb,
}
use mathlib.Core.Path.{subst}
use mathlib.Core.List.{Memᴰ}
use mathlib.Core.List.Memᴰ
use autogent.State.Table.{find}
use autogent.State.Table.Members.{mem-sort_by, mem-select}
use autogent.State.Rows.{Db, OutboxState, OutboxRecord, OutboxRow, IntentRow}
use autogent.State.Outbox.{unpublished, due, candidates, join, is_due_state, ready_at, is_intent}
use autogent.Recovery.{
  DeadLetter, Sorted, sort_unpublished, dead_letter_of, is_later, plan_recovery,
}

-- The record is given up, waits for its retry, or is sent again, as its attempts and its retry time say.
abbrev pub Goes :
    ℕ → ℕ → OutboxRecord → List OutboxRecord → List OutboxRecord → List DeadLetter → Type 0
Goes limit now r resend deferred dead =
    ((limit ≤ r.attempts)
      × ((d : DeadLetter) × (d.logical_id ≡ r.logical_id)
          × (d.event_id ≡ r.event_id)
          × Memᴰ d dead))
    ⊎ ((r.attempts < limit)
        × ((at : ℕ) × (r.next_retry_at ≡ some at) × (now < at))
        × Memᴰ r deferred)
    ⊎ ((r.attempts < limit)
        × ((r.next_retry_at ≡ none) ⊎ ((at : ℕ) × (r.next_retry_at ≡ some at) × (at ≤ now)))
        × Memᴰ r resend)

abbrev GoesIn : ℕ → ℕ → OutboxRecord → Sorted → Type 0
GoesIn limit now r s = Goes limit now r s.resend s.deferred s.dead_letter

retry_by_retry :
    (now : ℕ) (o : Option ℕ)
    → (is_later now o ≡ true → (at : ℕ) × (o ≡ some at) × (now < at))
      × (is_later now o ≡ false → (o ≡ none) ⊎ ((at : ℕ) × (o ≡ some at) × (at ≤ now)))
retry_by_retry now none = ((λ h. cc), (λ h. inl refl))
retry_by_retry now (some at) =
    ((λ h. (at, refl, ground (arith, h))), (λ h. inr (at, refl, ground (arith, h))))

sort_unpublished-Goes :
    (limit now : ℕ) (r : OutboxRecord) (rs : List OutboxRecord)
    → Memᴰ r rs
    → GoesIn limit now r (sort_unpublished limit now rs)
unfolding sort_unpublished
sort_unpublished-Goes limit now r [] m = elim m [ ]
sort_unpublished-Goes limit now r (x ∷ xs) (Memᴰ.head e) =
    subst (λ y. GoesIn limit now y (sort_unpublished limit now (x ∷ xs))) (sym e)
      (elim (Bool-cases (leb limit x.attempts)) [
        | inl t ↦ rw t (inl (ground (arith, t), (dead_letter_of x, refl, refl, Memᴰ.head refl)))
        | inr f ↦ elim (Bool-cases (is_later now x.next_retry_at)) [
          | inl l ↦
              rw (f, l)
                (inr (
                  inl
                    (ground (arith, f), (retry_by_retry now x.next_retry_at).0 l, Memᴰ.head refl)))
          | inr l ↦
              rw (f, l)
                (inr (
                  inr
                    (ground (arith, f), (retry_by_retry now x.next_retry_at).1 l, Memᴰ.head refl)))
        ]
      ])
sort_unpublished-Goes limit now r (x ∷ xs) (Memᴰ.tail m) =
    let rest = sort_unpublished-Goes limit now r xs m in
    elim (Bool-cases (leb limit x.attempts)) [
      | inl t ↦ rw t (more_dead rest)
      | inr f ↦ elim (Bool-cases (is_later now x.next_retry_at)) [
        | inl l ↦ rw (f, l) (more_deferred rest)
        | inr l ↦ rw (f, l) (more_resend rest)
      ]
    ]
  where
    s : Sorted
    s = sort_unpublished limit now xs

    more_dead :
        GoesIn limit now r s
        → Goes limit now r s.resend s.deferred (dead_letter_of x ∷ s.dead_letter)
    more_dead (inl (a, (d, b, c, k))) = inl (a, (d, b, c, Memᴰ.tail k))
    more_dead (inr (inl h)) = inr (inl h)
    more_dead (inr (inr h)) = inr (inr h)

    more_deferred : GoesIn limit now r s → Goes limit now r s.resend (x ∷ s.deferred) s.dead_letter
    more_deferred (inl h) = inl h
    more_deferred (inr (inl (a, b, k))) = inr (inl (a, b, Memᴰ.tail k))
    more_deferred (inr (inr h)) = inr (inr h)

    more_resend : GoesIn limit now r s → Goes limit now r (x ∷ s.resend) s.deferred s.dead_letter
    more_resend (inl h) = inl h
    more_resend (inr (inl h)) = inr (inl h)
    more_resend (inr (inr (a, b, k))) = inr (inr (a, b, Memᴰ.tail k))

due_state :
    (s : OutboxState)
    → s ≢ OutboxState.published
    → s ≢ OutboxState.dead_letter
    → is_due_state s ≡ true
due_state OutboxState.pending a b = refl
due_state OutboxState.failed a b = refl
due_state OutboxState.published a b = absurd (a refl)
due_state OutboxState.dead_letter a b = absurd (b refl)

joined : (row : OutboxRow) (o : Option IntentRow) → (join row o).row.out ≡ row.out
joined row none = refl
joined row (some i) = refl

mem-unpublished :
    (db : Db) (row : OutboxRow)
    → Memᴰ row db.outbox
    → is_due_state row.out.state ≡ true
    → Memᴰ row.out (unpublished db)
unfolding unpublished due candidates
mem-unpublished db row m t =
    let c = join row (find (is_intent row.out.logical_id) db.output_intents) in
    subst (λ o. Memᴰ o (unpublished db))
      (joined row (find (is_intent row.out.logical_id) db.output_intents))
      (Memᴰ.map (λ c. c.row.out)
        (mem-sort_by _ c _ (
          Memᴰ.map (λ r. join r (find (is_intent r.out.logical_id) db.output_intents))
            (mem-select (λ r. is_due_state r.out.state && ready_at none r.out.next_retry_at) row
              db.outbox (ground (arith, t)) m))))

-- Every row of the outbox that is neither published nor given up is in the plan. With its attempts used
-- up it is to be given up, under its ids; otherwise, with a retry time that is still to come it
-- waits, and with none or one that has come it is to be sent again.
pub plan_recovery-owed :
    (limit now : ℕ) (db : Db) (row : OutboxRow)
    → Memᴰ row db.outbox
    → row.out.state ≢ OutboxState.published
    → row.out.state ≢ OutboxState.dead_letter
    → Goes limit now row.out
        (plan_recovery limit now db).resend
        (plan_recovery limit now db).deferred
        (plan_recovery limit now db).dead_letter
unfolding plan_recovery
plan_recovery-owed limit now db row m a b =
    sort_unpublished-Goes limit now row.out (unpublished db)
      (mem-unpublished db row m (due_state row.out.state a b))
