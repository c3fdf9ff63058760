-- ===== src/Semaphore/Invariant.antt =====
-- What holds of src/runtime/scheduler.ts between two calls.
use autogent.Prelude.{
  ℕ, zero, suc, ◌+◌, ◌≤◌, ◌≡◌, refl, ◌⊎◌, inl, inr, false, List, [], ◌∷◌, ◌++◌, some, length,
  length-append, append_assoc, append-nil, arith, Bool-cases,
}
use Prim.Native.Nat.add
use native.Mathlib.Nat.{add-zero, add-suc, suc-add}
use autogent.Prelude.Int.{ℤ, pos, pos_part, neg_part, ltb_ℤ, ◌+ℤ◌, ◌-ℤ◌}
use autogent.Semaphore.{
  Semaphore, create, wake, set_permits, acquire, contains, release, hand_over, next_ticket,
}

-- `range_from a n` is a, a + 1, ..., a + n - 1.
unfoldable pub range_from : ℕ → ℕ → List ℕ
range_from a zero = []
range_from a (suc n) = a ∷ range_from (suc a) n

-- The permits that are neither free nor owed are those of the closures still to be called; nobody
-- waits while a permit is free; a closure frees one grant at most; calls are granted in order.
pub record IsValid (s : Semaphore) : Type 0 where
  pub balanced :
      length s.freed + s.permits + neg_part s.available ≡ length s.grants + pos_part s.available
  pub no_idle_permit : (s.waiters ≡ []) ⊎ (pos_part s.available ≡ 0)
  pub positive : 1 ≤ s.permits
  pub in_order : s.grants ++ s.waiters ≡ range_from 0 (length s.grants + length s.waiters)

length-wake :
    (free : ℤ) (grants ws : List ℕ)
    → length (wake free grants ws).1 + pos_part (wake free grants ws).0 + neg_part free
      ≡ length grants + pos_part free + neg_part (wake free grants ws).0
unfolding wake
length-wake free grants [] = refl
length-wake free grants (w ∷ ws) =
    ground (arith, length-wake (free -ℤ pos 1) (grants ++ w ∷ []) ws, length-append grants (w ∷ []))

wake_order :
    (free : ℤ) (grants ws : List ℕ)
    → (wake free grants ws).1 ++ (wake free grants ws).2 ≡ grants ++ ws
unfolding wake
wake_order free grants [] = refl
wake_order free grants (w ∷ ws) =
    ground
      (arith, wake_order (free -ℤ pos 1) (grants ++ w ∷ []) ws, append_assoc grants (w ∷ []) ws)

wake_idle :
    (free : ℤ) (grants ws : List ℕ)
    → ((wake free grants ws).2 ≡ []) ⊎ (pos_part (wake free grants ws).0 ≡ 0)
unfolding wake
wake_idle free grants [] = inl refl
wake_idle free grants (w ∷ ws) = ground (arith, wake_idle (free -ℤ pos 1) (grants ++ w ∷ []) ws)

-- While permits are owed the loop wakes nobody, and it never runs into debt.
pub wake_owed :
    (free : ℤ) (grants ws : List ℕ)
    → (neg_part (wake free grants ws).0 ≡ neg_part free)
      × ((pos_part free ≡ 0) → (wake free grants ws).1 ≡ grants)
unfolding wake
wake_owed free grants [] = (refl, λ _. refl)
wake_owed free grants (w ∷ ws) = ground (arith, wake_owed (free -ℤ pos 1) (grants ++ w ∷ []) ws)

range_from-append : (a n : ℕ) → range_from a n ++ (a + n) ∷ [] ≡ range_from a (suc n)
unfolding range_from
range_from-append a zero = ground (arith, add-zero a)
range_from-append a (suc n) = ground (arith, range_from-append (suc a) n, suc-add a n, add-suc a n)

-- A semaphore that the constructor returns is valid.
pub create-IsValid : (n : ℕ) {s : Semaphore} → create n ≡ some s → IsValid s
unfolding create range_from
create-IsValid n h = ground arith

-- Every call of `acquire` keeps a valid semaphore valid.
pub acquire-IsValid : (s : Semaphore) → IsValid s → IsValid (acquire s)
unfolding acquire
acquire-IsValid s v = ground (
  arith,
  length-append s.grants (next_ticket s ∷ []),
  length-append s.waiters (next_ticket s ∷ []),
  append_assoc s.grants s.waiters (next_ticket s ∷ []),
  append-nil s.grants,
  append-nil (s.grants ++ next_ticket s ∷ []),
  range_from-append 0 (next_ticket s),
  add.suc (length s.grants) (length s.waiters),
)

-- Every call of `setPermits` that does not throw keeps a valid semaphore valid.
pub set_permits-IsValid :
    (n : ℕ) (s : Semaphore) {t : Semaphore} → IsValid s → set_permits n s ≡ some t → IsValid t
unfolding set_permits
set_permits-IsValid n s v h =
    let free = s.available +ℤ (pos n -ℤ pos s.permits) in
    ground (
      arith,
      length-wake free s.grants s.waiters,
      wake_idle free s.grants s.waiters,
      wake_order free s.grants s.waiters,
      length-append s.grants s.waiters,
      length-append (wake free s.grants s.waiters).1 (wake free s.grants s.waiters).2,
    )

hand_over-IsValid :
    (t : ℕ) (s : Semaphore) (ws : List ℕ)
    → s.waiters ≡ ws
    → ltb_ℤ s.available (pos 0) ≡ false
    → IsValid s
    → IsValid (hand_over (record s { freed = t ∷ s.freed }) ws)
unfolding hand_over
hand_over-IsValid t s [] e b v = ground arith
hand_over-IsValid t s (w ∷ ws) e b v =
    ground (arith, append_assoc s.grants (w ∷ []) ws, length-append s.grants (w ∷ []))

-- Every call of a release closure keeps a valid semaphore valid, a repeated call too.
pub release-IsValid : (t : ℕ) (s : Semaphore) → IsValid s → IsValid (release t s)
unfolding release
release-IsValid t s v = elim (Bool-cases (contains t s.freed)) [
  | inl old ↦ rw old v
  | inr new ↦ rw new (elim (Bool-cases (ltb_ℤ s.available (pos 0))) [
    | inl owed ↦ rw owed (ground arith)
    | inr none_owed ↦ rw none_owed (hand_over-IsValid t s s.waiters refl none_owed v)
  ])
]
