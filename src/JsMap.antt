-- ===== src/JsMap.antt =====
-- A `Map` with texts as keys, which src/ uses for its registries: the entries in the order in
-- which their keys were first set.
pub mod Laws
pub mod Keys
use autogent.Prelude.{
  String, Bool, true, false, Option, none, some, List, [], ◌∷◌, ◌==◌, if◌then◌else◌,
}

abbrev pub JsMap {ℓ} : Type ℓ → Type ℓ
JsMap V = List (String × V)

module _ {ℓ} {V : Type ℓ} where
  unfoldable pub get : String → JsMap V → Option V
  get k [] = none
  get k ((l, v) ∷ m) = if l == k then some v else get k m

  unfoldable pub has : String → JsMap V → Bool
  has k [] = false
  has k ((l, v) ∷ m) = if l == k then true else has k m

  -- A key that is set again keeps its place.
  unfoldable pub set : String → V → JsMap V → JsMap V
  set k v [] = (k, v) ∷ []
  set k v ((l, w) ∷ m) = let rest = set k v m in if l == k then (l, v) ∷ m else (l, w) ∷ rest

  -- `Map.prototype.delete`.
  unfoldable pub remove : String → JsMap V → JsMap V
  remove k [] = []
  remove k ((l, w) ∷ m) = let rest = remove k m in if l == k then m else (l, w) ∷ rest

  unfoldable pub keys : JsMap V → List String
  keys [] = []
  keys ((l, w) ∷ m) = l ∷ keys m

  unfoldable pub values : JsMap V → List V
  values [] = []
  values ((l, w) ∷ m) = w ∷ values m
