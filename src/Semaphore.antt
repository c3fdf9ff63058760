-- ===== src/Semaphore.antt =====
-- src/runtime/scheduler.ts: the counting semaphore that bounds how many channels run a turn.
-- A call of `acquire` is named by a ticket, the number of calls made before it. A waiter is the
-- ticket whose promise is pending. `grants` and `freed` record the closures that the calls were
-- given, and the ones whose `released` flag is set: they stand for the callers, not for a field.
pub mod Invariant
pub mod Traces
use autogent.Prelude.{
  ℕ, ◌+◌, Bool, false, ◌||◌, List, [], ◌∷◌, ◌++◌, Option, none, some, length, eqb, ltb,
  if◌then◌else◌,
}
use autogent.Prelude.Int.{ℤ, pos, ◌+ℤ◌, ◌-ℤ◌, ltb_ℤ}

pub record Semaphore : Type 0 where
  pub available : ℤ
  pub permits : ℕ
  pub waiters : List ℕ
  pub grants : List ℕ
  pub freed : List ℕ

-- The constructor throws below one permit.
unfoldable pub create : ℕ → Option Semaphore
create n =
    if ltb n 1
    then none
    else some (record { available = pos n; permits = n; waiters = []; grants = []; freed = [] })

-- The loop of `setPermits`, over the waiters.
pub wake : ℤ → List ℕ → List ℕ → ℤ × List ℕ × List ℕ
wake free grants [] = (free, grants, [])
wake free grants (w ∷ ws) =
    let woken = wake (free -ℤ pos 1) (grants ++ w ∷ []) ws in
    if ltb_ℤ (pos 0) free then woken else (free, grants, w ∷ ws)

-- `none` is the error thrown below one permit.
unfoldable pub set_permits : ℕ → Semaphore → Option Semaphore
set_permits n s =
    let (free, grants, waiters) =
      wake (s.available +ℤ (pos n -ℤ pos s.permits)) s.grants s.waiters in
    if ltb n 1
    then none
    else some (record s { available = free; permits = n; waiters = waiters; grants = grants })

-- The ticket of the next call of `acquire`.
abbrev pub next_ticket : Semaphore → ℕ
next_ticket s = length s.grants + length s.waiters

unfoldable pub acquire : Semaphore → Semaphore
acquire s =
    if ltb_ℤ (pos 0) s.available
    then record s { available = s.available -ℤ pos 1; grants = s.grants ++ next_ticket s ∷ [] }
    else record s { waiters = s.waiters ++ next_ticket s ∷ [] }

pub contains : ℕ → List ℕ → Bool
contains t [] = false
contains t (x ∷ xs) = eqb x t || contains t xs

-- What a closure does when its `released` flag is not yet set.
hand_over : Semaphore → List ℕ → Semaphore
hand_over s [] = record s { available = s.available +ℤ pos 1 }
hand_over s (w ∷ ws) = record s { waiters = ws; grants = s.grants ++ w ∷ [] }

-- The closure that was returned to ticket `t`.
unfoldable pub release : ℕ → Semaphore → Semaphore
unfolding hand_over contains
release t s =
    let s' = record s { freed = t ∷ s.freed } in
    if contains t s.freed
    then s
    else if ltb_ℤ s.available (pos 0)
    then record s' { available = s.available +ℤ pos 1 }
    else hand_over s' s.waiters
