-- ===== src/Output/Split/Prefix.antt =====
-- The bytes of a prefix of a message, for src/runtime/output-router.ts: also of one that ends between the halves of
-- a pair, and of what `trimEnd` leaves.
use autogent.Prelude.{ℕ, zero, suc, ◌≤◌, ◌≡◌, refl, sym, ◌∙◌, ap, [], ◌∷◌, length, arith, if_cases}
use mathlib.Core.Path.{subst}
use autogent.Utf16.{Utf16, unit_bytes, byte_length, is_space, trim_end, keep_before, take}

first_bytes : (c : ℕ) (cs : Utf16) → unit_bytes c ≤ byte_length (c ∷ cs)
unfolding byte_length
first_bytes c [] = omega arith
first_bytes c (d ∷ cs) = ground arith

-- A shorter prefix is no larger, also where it ends between the halves of a pair.
pub byte_length-take :
    (m n : ℕ) (cs : Utf16) → m ≤ n → byte_length (take m cs) ≤ byte_length (take n cs)
unfolding byte_length take
byte_length-take zero n cs h = omega arith
byte_length-take (suc m) zero cs h = absurd (omega arith)
byte_length-take (suc m) (suc n) [] h = omega arith
byte_length-take (suc zero) (suc n) (c ∷ cs) h = first_bytes c (take n cs)
byte_length-take (suc (suc m)) (suc zero) (c ∷ cs) h = absurd (omega arith)
byte_length-take (suc (suc m)) (suc (suc n)) (c ∷ []) h = omega arith
byte_length-take (suc (suc m)) (suc (suc n)) (c ∷ d ∷ cs) h = ground (
  arith,
  byte_length-take m n cs (omega arith),
  byte_length-take (suc m) (suc n) (d ∷ cs) (omega arith),
)

take-length : (cs : Utf16) → take (length cs) cs ≡ cs
unfolding take
take-length [] = refl
take-length (c ∷ cs) = ap (λ x. c ∷ x) (take-length cs)

pub length-take : (n : ℕ) (cs : Utf16) → length (take n cs) ≤ n
unfolding take
length-take zero cs = omega arith
length-take (suc n) [] = omega arith
length-take (suc n) (c ∷ cs) = omega (arith, length-take n cs)

abbrev PrefixOf : Utf16 → Utf16 → Type 0
PrefixOf cs ys = (k : ℕ) × (k ≤ length cs) × (ys ≡ take k cs)

kept_first : (c : ℕ) (cs : Utf16) → PrefixOf (c ∷ cs) (keep_before c [])
unfolding take
kept_first c cs =
    if_cases (PrefixOf (c ∷ cs)) (is_space c) (λ _. (0, omega arith, refl))
      (λ _. (1, omega arith, refl))

-- `trimEnd` leaves a prefix.
trim_end-take : (cs : Utf16) → PrefixOf cs (trim_end cs)
unfolding trim_end take
trim_end-take [] = (0, omega arith, refl)
trim_end-take (c ∷ cs) = let (k, h, e) = trim_end-take cs in kept (trim_end cs) refl k h e
  where
    kept :
        (ys : Utf16)
        → trim_end cs ≡ ys
        → (k : ℕ) → k ≤ length cs
        → trim_end cs ≡ take k cs
        → PrefixOf (c ∷ cs) (keep_before c (trim_end cs))
    kept [] q k h e = subst (λ ys. PrefixOf (c ∷ cs) (keep_before c ys)) (sym q) (kept_first c cs)
    kept (y ∷ ys) q k h e =
        (suc k, omega arith, (ap (keep_before c) q ∙ ap (λ x. c ∷ x) (sym q)) ∙ ap (λ x. c ∷ x) e)

pub byte_length-trim_end : (cs : Utf16) → byte_length (trim_end cs) ≤ byte_length cs
byte_length-trim_end cs =
    let (k, h, e) = trim_end-take cs in
    rw e (
      subst (λ x. byte_length (take k cs) ≤ byte_length x) (take-length cs)
        (byte_length-take k (length cs) cs h))
