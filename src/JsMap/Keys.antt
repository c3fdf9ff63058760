-- ===== src/JsMap/Keys.antt =====
-- The keys of a `Map`: each is there once, and what holds of every entry survives a call.
use autogent.Prelude.{
  ◌≡◌, ◌≢◌, refl, ◌∙◌, inl, inr, String, Bool, true, false, [], ◌∷◌, arith, Bool-cases, ◌==◌,
  eq_iff, eq_refl, ne_of_eqb, if◌then◌else◌, All,
}
use mathlib.Core.Path.{subst}
use autogent.JsMap.{JsMap, has, set, remove}

-- No key is in the map twice.
abbrev pub Unique {ℓ} : {V : Type ℓ} → JsMap V → Type 0
Unique [] = Unit
Unique ((l, w) ∷ m) = (has l m ≡ false) × Unique m

present : (b rest : Bool) → (if b then true else rest) ≡ false → b ≡ true → ⊥
present b rest a t = cc

module _ {ℓ} {V : Type ℓ} where
  pub has-set_other : (j k : String) (v : V) (m : JsMap V) → j ≢ k → has j (set k v m) ≡ has j m
  unfolding has set
  has-set_other j k v [] ne = ground (arith, eq_iff k j, ne)
  has-set_other j k v ((l, w) ∷ m) ne =
      ground (arith, eq_iff l j, eq_iff l k, ne, has-set_other j k v m ne)

  pub has-set : (k : String) (v : V) (m : JsMap V) → has k (set k v m) ≡ true
  unfolding has set
  has-set k v [] = ground (arith, eq_refl k)
  has-set k v ((l, w) ∷ m) = ground (arith, has-set k v m)

  pub has-set_kept :
      (j k : String) (v : V) (m : JsMap V) → has j m ≡ true → has j (set k v m) ≡ true
  unfolding has set
  has-set_kept j k v [] h = cc
  has-set_kept j k v ((l, w) ∷ m) h = ground (arith, eq_iff l j, h, has-set_kept j k v m)

  pub has-remove_other : (j k : String) (m : JsMap V) → j ≢ k → has j (remove k m) ≡ has j m
  unfolding has remove
  has-remove_other j k [] ne = refl
  has-remove_other j k ((l, w) ∷ m) ne =
      ground (arith, eq_iff l j, eq_iff l k, ne, has-remove_other j k m ne)

  -- Deleting adds no key.
  pub has-remove_none : (j k : String) (m : JsMap V) → has j m ≡ false → has j (remove k m) ≡ false
  unfolding has remove
  has-remove_none j k [] h = refl
  has-remove_none j k ((l, w) ∷ m) h = ground (arith, h, has-remove_none j k m)

  pub has-remove : (k : String) (m : JsMap V) → Unique m → has k (remove k m) ≡ false
  unfolding has remove
  has-remove k [] u = refl
  has-remove k ((l, w) ∷ m) u = elim (Bool-cases (l == k)) [
    | inl t ↦ rw t (subst (λ i. has i m ≡ false) (ground (arith, eq_iff l k, t)) u.0)
    | inr f ↦ ground (arith, f, has-remove k m u.1)
  ]

  pub set-Unique : (k : String) (v : V) (m : JsMap V) → Unique m → Unique (set k v m)
  unfolding set has
  set-Unique k v [] u = (refl, tt)
  set-Unique k v ((l, w) ∷ m) u = elim (Bool-cases (l == k)) [
    | inl t ↦ rw t u
    | inr f ↦ rw f ((has-set_other l k v m (ne_of_eqb l k f)) ∙ u.0, set-Unique k v m u.1)
  ]

  pub remove-Unique : (k : String) (m : JsMap V) → Unique m → Unique (remove k m)
  unfolding remove
  remove-Unique k [] u = u
  remove-Unique k ((l, w) ∷ m) u = elim (Bool-cases (l == k)) [
    | inl t ↦ rw t u.1
    | inr f ↦ rw f (has-remove_none l k m u.0, remove-Unique k m u.1)
  ]

  pub All-set {κ} :
      (P : String × V → Type κ) (k : String) (v : V) (m : JsMap V)
      → P (k, v)
      → All P m
      → All P (set k v m)
  unfolding set
  All-set P k v [] p h = (p, tt)
  All-set P k v ((l, w) ∷ m) p h = elim (Bool-cases (l == k)) [
    | inl t ↦ rw t (subst (λ i. P (i, v)) (ground (arith, eq_iff l k, t)) p, h.1)
    | inr f ↦ rw f (h.0, All-set P k v m p h.1)
  ]

  All-absent {κ μ} :
      (P : String × V → Type κ) (Q : String × V → Type μ) (k : String) (m : JsMap V)
      → has k m ≡ false
      → ((j : String) (v : V) → j ≢ k → P (j, v) → Q (j, v))
      → All P m
      → All Q m
  unfolding has
  All-absent P Q k [] a f h = tt
  All-absent P Q k ((l, w) ∷ m) a f h = elim (Bool-cases (l == k)) [
    | inl t ↦ absurd (present (l == k) (has k m) a t)
    | inr e ↦ (f l w (ne_of_eqb l k e) h.0, All-absent P Q k m (ground (arith, a, e)) f h.1)
  ]

  -- What a deletion leaves has another key than the deleted one.
  pub All-remove {κ μ} :
      (P : String × V → Type κ) (Q : String × V → Type μ) (k : String) (m : JsMap V)
      → Unique m
      → ((j : String) (v : V) → j ≢ k → P (j, v) → Q (j, v))
      → All P m
      → All Q (remove k m)
  unfolding remove
  All-remove P Q k [] u f h = tt
  All-remove P Q k ((l, w) ∷ m) u f h = elim (Bool-cases (l == k)) [
    | inl t ↦ rw t (
        All-absent P Q k m (subst (λ i. has i m ≡ false) (ground (arith, eq_iff l k, t)) u.0) f h.1)
    | inr e ↦ rw e (f l w (ne_of_eqb l k e) h.0, All-remove P Q k m u.1 f h.1)
  ]

  pub All-entries {κ μ} :
      (P : String × V → Type κ) (Q : String × V → Type μ) (m : JsMap V)
      → ((j : String) (v : V) → P (j, v) → Q (j, v))
      → All P m
      → All Q m
  All-entries P Q [] f h = tt
  All-entries P Q ((l, w) ∷ m) f h = (f l w h.0, All-entries P Q m f h.1)

  pub All-removed {κ} :
      (P : String × V → Type κ) (k : String) (m : JsMap V) → All P m → All P (remove k m)
  unfolding remove
  All-removed P k [] h = tt
  All-removed P k ((l, w) ∷ m) h = elim (Bool-cases (l == k)) [
    | inl t ↦ rw t h.1
    | inr f ↦ rw f (h.0, All-removed P k m h.1)
  ]

  -- What holds of every key holds of one that is there.
  pub All-has {κ} :
      (P : String → Type κ) (k : String) (m : JsMap V) → All (λ e. P e.0) m → has k m ≡ true → P k
  unfolding has
  All-has P k [] a h = absurd (present false false refl h)
  All-has P k ((l, w) ∷ m) a h = elim (Bool-cases (l == k)) [
    | inl t ↦ subst P (ground (arith, eq_iff l k, t)) a.0
    | inr f ↦ All-has P k m a.1 (ground (arith, f, h))
  ]
