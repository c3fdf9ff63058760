-- ===== src/Semaphore/Traces.antt =====
-- src/runtime/scheduler.ts over every sequence of calls.
use autogent.Prelude.{
  ℕ, ◌+◌, ◌≤◌, ◌≡◌, refl, ◌⊎◌, Option, none, some, List, [], ◌∷◌, length, false, Bool-cases, inl,
  inr, length-append, arith,
}
use autogent.Prelude.Int.{ltb_ℤ, neg_part, pos, ◌+ℤ◌, ◌-ℤ◌}
use autogent.Semaphore.{
  Semaphore, hand_over, contains, create, set_permits, acquire, release, next_ticket,
}
use autogent.Semaphore.Invariant.{
  IsValid, create-IsValid, acquire-IsValid, set_permits-IsValid, release-IsValid, wake_owed,
}

pub data Call : Type 0 where
  acquire_call : Call
  release_call : ℕ → Call
  resize_call : ℕ → Call

-- A `setPermits` that throws has changed nothing.
abbrev or_unchanged : Semaphore → Option Semaphore → Semaphore
or_unchanged s none = s
or_unchanged s (some t) = t

unfoldable pub step : Call → Semaphore → Semaphore
step acquire_call s = acquire s
step (release_call t) s = release t s
step (resize_call n) s = or_unchanged s (set_permits n s)

unfoldable pub run : List Call → Semaphore → Semaphore
run [] s = s
run (c ∷ cs) s = run cs (step c s)

or_unchanged-IsValid :
    (s : Semaphore) (o : Option Semaphore)
    → IsValid s
    → ((t : Semaphore) → o ≡ some t → IsValid t)
    → IsValid (or_unchanged s o)
or_unchanged-IsValid s none v f = v
or_unchanged-IsValid s (some t) v f = f t refl

step-IsValid : (c : Call) (s : Semaphore) → IsValid s → IsValid (step c s)
unfolding step
step-IsValid acquire_call s v = acquire-IsValid s v
step-IsValid (release_call t) s v = release-IsValid t s v
step-IsValid (resize_call n) s v =
    or_unchanged-IsValid s (set_permits n s) v (λ t e. set_permits-IsValid n s v e)

calls-IsValid : (cs : List Call) (s : Semaphore) → IsValid s → IsValid (run cs s)
unfolding run
calls-IsValid [] s v = v
calls-IsValid (c ∷ cs) s v = calls-IsValid cs (step c s) (step-IsValid c s v)

-- After any calls on a new semaphore: the permits that are not free are those held, nobody waits
-- while one is free, and the permits were granted in the order of the calls of `acquire`.
pub run-IsValid : (n : ℕ) (cs : List Call) {s : Semaphore} → create n ≡ some s → IsValid (run cs s)
run-IsValid n cs {s} e = calls-IsValid cs s (create-IsValid n e)

acquire_overcommits :
    (s : Semaphore)
    → IsValid s
    → IsValid (acquire s)
    → (length (acquire s).grants ≤ length (acquire s).freed + (acquire s).permits)
      ⊎ (length (acquire s).grants + length s.freed ≤ length s.grants + length (acquire s).freed)
unfolding acquire
acquire_overcommits s v w = ground (arith, length-append s.grants (next_ticket s ∷ []))

-- A closure either runs with no debt, and leaves none, or wakes nobody.
hand_over_no_debt :
    (s : Semaphore) (ws : List ℕ)
    → ltb_ℤ s.available (pos 0) ≡ false
    → neg_part (hand_over s ws).available ≡ 0
unfolding hand_over
hand_over_no_debt s [] h = ground arith
hand_over_no_debt s (w ∷ ws) h = ground arith

release_debt :
    (t : ℕ) (s : Semaphore)
    → (neg_part (release t s).available ≡ 0)
      ⊎ (length (release t s).grants + length s.freed
          ≤ length s.grants + length (release t s).freed)
unfolding release
release_debt t s = elim (Bool-cases (contains t s.freed)) [
  | inl old ↦ rw old (inr (omega arith))
  | inr new ↦ rw new (elim (Bool-cases (ltb_ℤ s.available (pos 0))) [
    | inl owed ↦ rw owed (inr (omega arith))
    | inr paid ↦ rw paid (inl (hand_over_no_debt (record s { freed = t ∷ s.freed }) s.waiters paid))
  ])
]

release_overcommits :
    (t : ℕ) (s : Semaphore)
    → IsValid (release t s)
    → (length (release t s).grants ≤ length (release t s).freed + (release t s).permits)
      ⊎ (length (release t s).grants + length s.freed
          ≤ length s.grants + length (release t s).freed)
release_overcommits t s w = ground (arith, release_debt t s)

resize_overcommits :
    (n : ℕ) (s : Semaphore)
    → let t = or_unchanged s (set_permits n s) in
      IsValid t
      → (length t.grants ≤ length t.freed + t.permits)
        ⊎ (length t.grants + length s.freed ≤ length s.grants + length t.freed)
unfolding set_permits
resize_overcommits n s w =
    ground (arith, wake_owed (s.available +ℤ (pos n -ℤ pos s.permits)) s.grants s.waiters)

never_overcommits :
    (c : Call) (s : Semaphore)
    → IsValid s
    → IsValid (step c s)
    → (length (step c s).grants ≤ length (step c s).freed + (step c s).permits)
      ⊎ (length (step c s).grants + length s.freed ≤ length s.grants + length (step c s).freed)
unfolding step
never_overcommits acquire_call s v w = acquire_overcommits s v w
never_overcommits (release_call t) s v w = release_overcommits t s w
never_overcommits (resize_call n) s v w = resize_overcommits n s w

-- After any call on a valid semaphore, at most `permits` permits are held, or no more than before the call: a
-- call takes the number of held permits up only as far as the ceiling.
pub step_never_overcommits :
    (c : Call) (s : Semaphore)
    → IsValid s
    → (length (step c s).grants ≤ length (step c s).freed + (step c s).permits)
      ⊎ (length (step c s).grants + length s.freed ≤ length s.grants + length (step c s).freed)
step_never_overcommits c s v = never_overcommits c s v (step-IsValid c s v)

-- No lost wake-up: once every closure was called, no caller waits.
pub all_released-no_waiters :
    (n : ℕ) (cs : List Call) {s : Semaphore}
    → create n ≡ some s
    → length (run cs s).grants ≤ length (run cs s).freed
    → (run cs s).waiters ≡ []
all_released-no_waiters n cs e h = ground (arith, run-IsValid n cs e)
