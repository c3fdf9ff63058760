-- ===== src/JsMap/Laws.antt =====
-- What setting and deleting a key does to what is read later.
use autogent.Prelude.{
  ◌≡◌, ◌≢◌, refl, inl, inr, String, true, false, none, some, [], ◌∷◌, arith, Bool-cases, ◌==◌,
  eq_iff, eq_refl,
}
use autogent.JsMap.{JsMap, get, has, set, remove}

pub eqs_false : (a b : String) → a ≢ b → (a == b) ≡ false
eqs_false a b ne = elim (Bool-cases (a == b)) [
  | inl t ↦ absurd (ne (ground (arith, eq_iff a b, t)))
  | inr f ↦ f
]

module _ {ℓ} {V : Type ℓ} where
  pub get-set : (k : String) (v : V) (m : JsMap V) → get k (set k v m) ≡ some v
  unfolding get set
  get-set k v [] = ground (arith, eq_refl k)
  get-set k v ((l, w) ∷ m) = ground (arith, get-set k v m)

  pub get-set_other : (j k : String) (v : V) (m : JsMap V) → j ≢ k → get j (set k v m) ≡ get j m
  unfolding get set
  get-set_other j k v [] ne = ground (arith, eq_iff k j, ne)
  get-set_other j k v ((l, w) ∷ m) ne =
      ground (arith, eq_iff l j, eq_iff l k, ne, get-set_other j k v m ne)

  pub has-get : (k : String) (m : JsMap V) → get k m ≡ none → has k m ≡ false
  unfolding get has
  has-get k [] h = refl
  has-get k ((l, w) ∷ m) h = ground (arith, has-get k m)

  pub get-has : (k : String) (m : JsMap V) → has k m ≡ false → get k m ≡ none
  unfolding get has
  get-has k [] h = refl
  get-has k ((l, w) ∷ m) h = ground (arith, get-has k m)

  pub get-remove_other : (j k : String) (m : JsMap V) → j ≢ k → get j (remove k m) ≡ get j m
  unfolding get remove
  get-remove_other j k [] ne = refl
  get-remove_other j k ((l, w) ∷ m) ne =
      ground (arith, eq_iff l j, eq_iff l k, ne, get-remove_other j k m ne)

  pub has-some : (k : String) (m : JsMap V) → has k m ≡ true → (v : V) × (get k m ≡ some v)
  unfolding get has
  has-some k [] h = cc
  has-some k ((l, w) ∷ m) h = elim (Bool-cases (l == k)) [
    | inl t ↦ rw t (w, refl)
    | inr f ↦ let rest = has-some k m (ground (arith, f, h)) in (rest.0, ground (arith, f, rest.1))
  ]
