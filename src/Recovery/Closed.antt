-- ===== src/Recovery/Closed.antt =====
-- What `applyRecovery` of src/state/recovery.ts leaves of the turns that a crash cut short.
use autogent.Prelude.{
  false≢true, ℕ, ◌≡◌, refl, ◌∙◌, String, Bool, true, Option, some, List, [], ◌∷◌, map, Bool-cases,
  inl, inr, arith, ◌==◌, eq_iff, All,
}
use autogent.State.Table.{any, select, update, sort_by, insert_by}
use autogent.State.Rows.{Db, TurnRecord, interrupted}
use autogent.State.Turns.{is_live, is_turn, set_state, unfinished, with_state}
use autogent.State.Inbox.{set_disposition}
use autogent.State.Outbox.{mark_dead_letter, set_intent_state}
use autogent.Recovery.{
  InterruptedTurn, RequeuedInput, DeadLetter, interrupt_all, requeue_all, dead_letter_all,
  apply_recovery, plan_recovery, to_interrupted,
}

module _ {ℓ} {A : Type ℓ} where
  any-insert_by :
      (q : A → Bool) (le : A → A → Bool) (x : A) (xs : List A)
      → any q (insert_by le x xs) ≡ any q (x ∷ xs)
  unfolding any insert_by
  any-insert_by q le x [] = refl
  any-insert_by q le x (y ∷ ys) = ground (arith, any-insert_by q le x ys)

  any-sort_by : (q : A → Bool) (le : A → A → Bool) (xs : List A) → any q (sort_by le xs) ≡ any q xs
  unfolding any sort_by
  any-sort_by q le [] = refl
  any-sort_by q le (x ∷ xs) =
      ground (arith, any-sort_by q le xs, any-insert_by q le x (sort_by le xs))

-- Every live turn is among `ts`.
abbrev Covered : List InterruptedTurn → List TurnRecord → Type 0
Covered ts rows =
    All (λ r. is_live r.state ≡ true → any (λ t. t.turn_id == r.turn_id) ts ≡ true) rows

Covered-later :
    (ts : List InterruptedTurn) (t : InterruptedTurn) (rows : List TurnRecord)
    → Covered ts rows
    → Covered (t ∷ ts) rows
unfolding any
Covered-later ts t [] h = tt
Covered-later ts t (r ∷ rs) h = ((λ live. ground (arith, h.0 live)), Covered-later ts t rs h.1)

any-map_interrupted :
    (id : String) (rows : List TurnRecord)
    → any (λ t. t.turn_id == id) (map to_interrupted rows) ≡ any (λ t. t.turn_id == id) rows
unfolding any
any-map_interrupted id [] = refl
any-map_interrupted id (r ∷ rs) = ground (arith, any-map_interrupted id rs)

All-covered :
    (rows : List TurnRecord) (more : List InterruptedTurn)
    → ((id : String)
        → any (λ t. t.turn_id == id) (select (λ r. is_live r.state) rows) ≡ true
        → any (λ t. t.turn_id == id) more ≡ true)
    → All (λ r. is_live r.state ≡ true → any (λ t. t.turn_id == r.turn_id) more ≡ true) rows
unfolding any select
All-covered [] more h = tt
All-covered (r ∷ rs) more h = (
  (λ live. h r.turn_id (ground (arith, live, eq_iff r.turn_id r.turn_id))),
  All-covered rs more (λ id e. h id (ground (arith, e))),
)

interrupted-Covered :
    (t : InterruptedTurn) (ts : List InterruptedTurn) (now : ℕ) (rows : List TurnRecord)
    (at : Option ℕ) (reason : Option (Option String))
    → Covered (t ∷ ts) rows
    → Covered ts (update (is_turn t.turn_id) (with_state interrupted at reason) rows)
unfolding any update
interrupted-Covered t ts now [] at reason h = tt
interrupted-Covered t ts now (r ∷ rs) at reason h = elim (Bool-cases (r.turn_id == t.turn_id)) [
  | inl e ↦ rw e ((λ live. absurd (false≢true live)), interrupted-Covered t ts now rs at reason h.1)
  | inr e ↦ rw e (
    (λ live. ground (arith, h.0 live, e, eq_iff r.turn_id t.turn_id, eq_iff t.turn_id r.turn_id)),
    interrupted-Covered t ts now rs at reason h.1,
  )
]

none_live : (rows : List TurnRecord) → Covered [] rows → select (λ r. is_live r.state) rows ≡ []
unfolding any select
none_live [] h = refl
none_live (r ∷ rs) h = elim (Bool-cases (is_live r.state)) [
  | inl live ↦ ground (arith, h.0 live)
  | inr dead ↦ rw dead (none_live rs h.1)
]

interrupt_all-none_live :
    (now : ℕ) (ts : List InterruptedTurn) (db : Db)
    → Covered ts db.turns
    → select (λ r. is_live r.state) (interrupt_all now ts db).turns ≡ []
unfolding interrupt_all set_state
interrupt_all-none_live now [] db h = none_live db.turns h
interrupt_all-none_live now (t ∷ ts) db h =
    interrupt_all-none_live now ts
      (set_state t.turn_id interrupted (some (some t.stop_reason)) now db)
      (interrupted-Covered t ts now db.turns (some now) (some (some t.stop_reason)) h)

requeue_all-turns : (is : List RequeuedInput) (db : Db) → (requeue_all is db).turns ≡ db.turns
unfolding requeue_all set_disposition
requeue_all-turns [] db = refl
requeue_all-turns (i ∷ is) db = requeue_all-turns is _

dead_letter_all-turns : (ds : List DeadLetter) (db : Db) → (dead_letter_all ds db).turns ≡ db.turns
unfolding dead_letter_all mark_dead_letter set_intent_state
dead_letter_all-turns [] db = refl
dead_letter_all-turns (d ∷ ds) db = dead_letter_all-turns ds _

unfinished-Covered : (db : Db) → Covered (map to_interrupted (unfinished db)) db.turns
unfolding unfinished
unfinished-Covered db =
    All-covered db.turns (map to_interrupted (unfinished db))
      (λ id e. any-map_interrupted id (unfinished db) ∙ any-sort_by (λ t. t.turn_id == id) _ _ ∙ e)

-- Once the plan made from the tables is applied to them, no turn is unfinished.
pub apply_recovery-unfinished :
    (limit now at : ℕ) (db : Db)
    → unfinished (apply_recovery (plan_recovery limit now db) at db) ≡ []
unfolding unfinished apply_recovery plan_recovery sort_by
apply_recovery-unfinished limit now at db =
    rw
      (
        dead_letter_all-turns (plan_recovery limit now db).dead_letter _,
        requeue_all-turns (plan_recovery limit now db).requeue _,
        interrupt_all-none_live at (map to_interrupted (unfinished db)) db (unfinished-Covered db),
      )
      refl
