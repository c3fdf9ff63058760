-- ===== src/State/Table/Members.antt =====
-- Membership in what the queries of src/state/ select and order.
use autogent.Prelude.{
  ◌≡◌, refl, sym, ap, ◌∙◌, Bool, true, Option, none, some, List, [], ◌∷◌, Bool-cases, inl, inr, ◌⊎◌,
}
use mathlib.Core.List.{Memᴰ}
use mathlib.Core.List.Memᴰ
use autogent.State.Table.{find, select, sort_by, insert_by}

module _ {ℓ} {A : Type ℓ} where
  mem-insert_by_self : (le : A → A → Bool) (x : A) (xs : List A) → Memᴰ x (insert_by le x xs)
  unfolding insert_by
  mem-insert_by_self le x [] = Memᴰ.head refl
  mem-insert_by_self le x (y ∷ ys) = elim (Bool-cases (le x y)) [
    | inl t ↦ rw t (Memᴰ.head refl)
    | inr t ↦ rw t (Memᴰ.tail (mem-insert_by_self le x ys))
  ]

  mem-insert_by :
      (le : A → A → Bool) (x a : A) (xs : List A) → Memᴰ a xs → Memᴰ a (insert_by le x xs)
  unfolding insert_by
  mem-insert_by le x a [] m = elim m [ ]
  mem-insert_by le x a (y ∷ ys) m = elim (Bool-cases (le x y)) [
    | inl t ↦ rw t (Memᴰ.tail m)
    | inr t ↦ rw t (descend (λ k. mem-insert_by le x a ys k) (Memᴰ.cases_cons m))
  ]
    where
      descend :
          (Memᴰ a ys → Memᴰ a (insert_by le x ys))
          → (a ≡ y) ⊎ Memᴰ a ys
          → Memᴰ a (y ∷ insert_by le x ys)
      descend f (inl e) = Memᴰ.head e
      descend f (inr k) = Memᴰ.tail (f k)

  pub mem-sort_by : (le : A → A → Bool) (a : A) (xs : List A) → Memᴰ a xs → Memᴰ a (sort_by le xs)
  unfolding sort_by
  mem-sort_by le a [] m = elim m [ ]
  mem-sort_by le a (x ∷ xs) (Memᴰ.head e) = Memᴰ.cast e (mem-insert_by_self le x (sort_by le xs))
  mem-sort_by le a (x ∷ xs) (Memᴰ.tail m) =
      mem-insert_by le x a (sort_by le xs) (mem-sort_by le a xs m)

  pub mem-select :
      (q : A → Bool) (a : A) (xs : List A) → q a ≡ true → Memᴰ a xs → Memᴰ a (select q xs)
  unfolding select
  mem-select q a [] t m = elim m [ ]
  mem-select q a (x ∷ xs) t (Memᴰ.head e) = rw (ap q (sym e) ∙ t) (Memᴰ.head e)
  mem-select q a (x ∷ xs) t (Memᴰ.tail m) = elim (Bool-cases (q x)) [
    | inl u ↦ rw u (Memᴰ.tail (mem-select q a xs t m))
    | inr u ↦ rw u (mem-select q a xs t m)
  ]

  of_insert_by :
      (le : A → A → Bool) (x a : A) (xs : List A) → Memᴰ a (insert_by le x xs) → Memᴰ a (x ∷ xs)
  unfolding insert_by
  of_insert_by le x a [] m = m
  of_insert_by le x a (y ∷ ys) m = elim (Bool-cases (le x y)) [
    | inl t ↦ rw t at m
    | inr t ↦ descend (λ k. of_insert_by le x a ys k) (Memᴰ.cases_cons (rw t at m))
  ]
    where
      swap : (a ≡ x) ⊎ Memᴰ a ys → Memᴰ a (x ∷ (y ∷ ys))
      swap (inl e) = Memᴰ.head e
      swap (inr k) = Memᴰ.tail (Memᴰ.tail k)

      descend :
          (Memᴰ a (insert_by le x ys) → Memᴰ a (x ∷ ys))
          → (a ≡ y) ⊎ Memᴰ a (insert_by le x ys)
          → Memᴰ a (x ∷ (y ∷ ys))
      descend f (inl e) = Memᴰ.tail (Memᴰ.head e)
      descend f (inr k) = swap (Memᴰ.cases_cons (f k))

  -- What is sorted was there before.
  pub of_sort_by : (le : A → A → Bool) (a : A) (xs : List A) → Memᴰ a (sort_by le xs) → Memᴰ a xs
  unfolding sort_by
  of_sort_by le a [] m = m
  of_sort_by le a (x ∷ xs) m =
      descend (λ k. of_sort_by le a xs k) (Memᴰ.cases_cons (of_insert_by le x a (sort_by le xs) m))
    where
      descend :
          (Memᴰ a (sort_by le xs) → Memᴰ a xs) → (a ≡ x) ⊎ Memᴰ a (sort_by le xs) → Memᴰ a (x ∷ xs)
      descend f (inl e) = Memᴰ.head e
      descend f (inr k) = Memᴰ.tail (f k)

  -- What is selected was there before, and satisfies the condition.
  pub of_select :
      (q : A → Bool) (a : A) (xs : List A) → Memᴰ a (select q xs) → (q a ≡ true) × Memᴰ a xs
  unfolding select
  of_select q a [] m = elim m [ ]
  of_select q a (x ∷ xs) m = elim (Bool-cases (q x)) [
    | inl t ↦ descend t (λ k. of_select q a xs k) (Memᴰ.cases_cons (rw t at m))
    | inr t ↦ (let (h, k) = of_select q a xs (rw t at m) in (h, Memᴰ.tail k))
  ]
    where
      descend :
          q x ≡ true
          → (Memᴰ a (select q xs) → (q a ≡ true) × Memᴰ a xs)
          → (a ≡ x) ⊎ Memᴰ a (select q xs)
          → (q a ≡ true) × Memᴰ a (x ∷ xs)
      descend t f (inl e) = (ap q e ∙ t, Memᴰ.head e)
      descend t f (inr k) = let (h, l) = f k in (h, Memᴰ.tail l)

  pub of_find : (q : A → Bool) (a : A) (xs : List A) → find q xs ≡ some a → (q a ≡ true) × Memᴰ a xs
  unfolding find
  of_find q a [] e = absurd (contradiction e)
    where
      contradiction : ◌≡◌ {A = Option A} none (some a) → ⊥
      contradiction h = cc
  of_find q a (x ∷ xs) e = elim (Bool-cases (q x)) [
    | inl t ↦ (let same = first (rw t at e) in (ap q (sym same) ∙ t, Memᴰ.head (sym same)))
    | inr t ↦ (let (h, k) = of_find q a xs (rw t at e) in (h, Memᴰ.tail k))
  ]
    where
      first : ◌≡◌ {A = Option A} (some x) (some a) → x ≡ a
      first h = cc
