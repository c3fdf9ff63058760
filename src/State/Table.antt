-- ===== src/State/Table.antt =====
-- A table of the agent's SQLite database as the list of its rows, and the statements that
-- the repositories under src/state/ prepare: SELECT, UPDATE and DELETE with a WHERE clause.
-- A query with ORDER BY sorts the rows that it selects; the columns compared are in the caller.
pub mod Laws
pub mod Members
pub mod Sorting
use autogent.Prelude.{
  ◌≡◌, refl, Bool, true, false, Option, none, some, List, [], ◌∷◌, ◌++◌, arith, if◌then◌else◌,
}
use mathlib.Core.Option

module _ {ℓ} {A : Type ℓ} where
  unfoldable pub find : (A → Bool) → List A → Option A
  find q [] = none
  find q (x ∷ xs) = if q x then some x else find q xs

  unfoldable pub any : (A → Bool) → List A → Bool
  any q [] = false
  any q (x ∷ xs) = if q x then true else any q xs

  unfoldable pub select : (A → Bool) → List A → List A
  select q [] = []
  select q (x ∷ xs) = let rest = select q xs in if q x then x ∷ rest else rest

  unfoldable pub update : (A → Bool) → (A → A) → List A → List A
  update p f [] = []
  update p f (x ∷ xs) = (if p x then f x else x) ∷ update p f xs

  unfoldable pub delete : (A → Bool) → List A → List A
  delete p [] = []
  delete p (x ∷ xs) = let rest = delete p xs in if p x then rest else x ∷ rest

  -- ORDER BY, and `Array.prototype.sort`: stable, `le` is "not after".
  unfoldable pub insert_by : (A → A → Bool) → A → List A → List A
  insert_by le x [] = x ∷ []
  insert_by le x (y ∷ ys) = if le x y then x ∷ y ∷ ys else y ∷ insert_by le x ys

  unfoldable pub sort_by : (A → A → Bool) → List A → List A
  unfolding insert_by
  sort_by le [] = []
  sort_by le (x ∷ xs) = insert_by le x (sort_by le xs)
