-- ===== src/State/Table/Laws.antt =====
-- What SELECT, UPDATE, INSERT and DELETE do to a later SELECT.
use autogent.Prelude.{
  ◌≡◌, refl, inl, inr, Bool, true, false, Option, none, some, List, [], ◌∷◌, ◌++◌, arith,
  Bool-cases, if◌then◌else◌, All,
}
use mathlib.Core.Option
use autogent.State.Table.{find, any, select, update, delete, insert_by, sort_by}

-- A row after `UPDATE … SET f WHERE p`.
abbrev pub when {ℓ} : {A : Type ℓ} → (A → Bool) → (A → A) → A → A
when p f x = if p x then f x else x

abbrev pub or_else {ℓ} : {A : Type ℓ} → Option A → Option A → Option A
or_else none b = b
or_else (some a) b = some a

abbrev pub is_some {ℓ} : {A : Type ℓ} → Option A → Bool
is_some none = false
is_some (some _) = true

module _ {ℓ} {A : Type ℓ} where
  -- An update that does not change which rows a key selects acts on the row that the key finds.
  pub find-update :
      (q p : A → Bool) (f : A → A) (xs : List A)
      → ((x : A) → q (f x) ≡ q x)
      → find q (update p f xs) ≡ Option.map (when p f) (find q xs)
  unfolding find update
  find-update q p f [] keep = refl
  find-update q p f (x ∷ xs) keep = ground (arith, keep x, find-update q p f xs keep)

  pub any-update :
      (q p : A → Bool) (f : A → A) (xs : List A)
      → ((x : A) → q (f x) ≡ q x)
      → any q (update p f xs) ≡ any q xs
  unfolding any update
  any-update q p f [] keep = refl
  any-update q p f (x ∷ xs) keep = ground (arith, keep x, any-update q p f xs keep)

  pub find-append :
      (q : A → Bool) (xs ys : List A) → find q (xs ++ ys) ≡ or_else (find q xs) (find q ys)
  unfolding find
  find-append q [] ys = refl
  find-append q (x ∷ xs) ys = ground (arith, find-append q xs ys)

  pub any-append :
      (q : A → Bool) (xs ys : List A) → any q (xs ++ ys) ≡ (if any q xs then true else any q ys)
  unfolding any
  any-append q [] ys = refl
  any-append q (x ∷ xs) ys = ground (arith, any-append q xs ys)

  pub any-find : (q : A → Bool) (xs : List A) → any q xs ≡ is_some (find q xs)
  unfolding any find
  any-find q [] = refl
  any-find q (x ∷ xs) = ground (arith, any-find q xs)

  -- What is found satisfies the test.
  pub find_sound : (q : A → Bool) (xs : List A) {x : A} → find q xs ≡ some x → q x ≡ true
  unfolding find
  find_sound q [] h = cc
  find_sound q (y ∷ ys) {x} h = elim (Bool-cases (q y)) [
    | inl t ↦ ground (arith, t, h)
    | inr f ↦ find_sound q ys (ground arith)
  ]

  -- A row that nobody else's key selects: deleting others keeps it, deleting it removes it.
  pub any-delete : (q : A → Bool) (xs : List A) → any q (delete q xs) ≡ false
  unfolding any delete
  any-delete q [] = refl
  any-delete q (x ∷ xs) = ground (arith, any-delete q xs)

  pub All-update {κ} :
      (P : A → Type κ) (p : A → Bool) (f : A → A) (xs : List A)
      → ((x : A) → P x → P (f x))
      → All P xs
      → All P (update p f xs)
  unfolding update
  All-update P p f [] keep h = tt
  All-update P p f (x ∷ xs) keep h = elim (Bool-cases (p x)) [
    | inl t ↦ rw t (keep x h.0, All-update P p f xs keep h.1)
    | inr t ↦ rw t (h.0, All-update P p f xs keep h.1)
  ]

  pub All-append {κ} : (P : A → Type κ) (xs ys : List A) → All P xs → All P ys → All P (xs ++ ys)
  All-append P [] ys hx hy = hy
  All-append P (x ∷ xs) ys hx hy = (hx.0, All-append P xs ys hx.1 hy)

  pub All-insert_by {κ} :
      (P : A → Type κ) (le : A → A → Bool) (x : A) (xs : List A)
      → P x
      → All P xs
      → All P (insert_by le x xs)
  unfolding insert_by
  All-insert_by P le x [] hx h = (hx, tt)
  All-insert_by P le x (y ∷ ys) hx h = elim (Bool-cases (le x y)) [
    | inl t ↦ rw t (hx, h)
    | inr t ↦ rw t (h.0, All-insert_by P le x ys hx h.1)
  ]

  pub All-sort_by {κ} :
      (P : A → Type κ) (le : A → A → Bool) (xs : List A) → All P xs → All P (sort_by le xs)
  unfolding sort_by
  All-sort_by P le [] h = h
  All-sort_by P le (x ∷ xs) h = All-insert_by P le x (sort_by le xs) h.0 (All-sort_by P le xs h.1)

  pub All-select : (q : A → Bool) (xs : List A) → All (λ x. q x ≡ true) (select q xs)
  unfolding select
  All-select q [] = tt
  All-select q (x ∷ xs) = elim (Bool-cases (q x)) [
    | inl t ↦ rw t (t, All-select q xs)
    | inr t ↦ rw t (All-select q xs)
  ]
