-- ===== src/Registry/Closing.antt =====
-- An actor of src/runtime/channel-registry.ts hears nothing after its close.
use autogent.Prelude.{
  ℕ, ◌+◌, ◌<◌, ◌≡◌, refl, sym, inl, inr, String, Bool, true, false, some, List, [], ◌∷◌, ◌++◌,
  arith, Bool-cases, if◌then◌else◌, ◌==◌, All, eqb, append_assoc, append-nil,
}
use mathlib.Core.Path.{subst}
use autogent.JsMap
use autogent.JsMap.{JsMap}
use autogent.JsMap.Keys.{All-set, All-removed}
use autogent.Nostr.{NostrEvent}
use autogent.Registry.{
  ChannelDescriptor, ActorCall, close_call, ChannelRegistry, add, submit, cancel, rotate, tell_each,
  cancel_all, begin_remove, release_removed, finish_remove,
}

-- The calls of the registry, but for `closeAll`.
pub data Call : Type 0 where
  added : ChannelDescriptor → Call
  submitted : String → NostrEvent → Call
  cancelled : String → String → Call
  all_cancelled : String → Call
  rotated : String → Call
  remove_begun : String → Call
  remove_released : String → Call
  remove_finished : String → Call

unfoldable pub step : Call → ChannelRegistry → ChannelRegistry
step (added d) g = add d g
step (submitted id event) g = (submit id event g).1
step (cancelled id reason) g = cancel id reason g
step (all_cancelled reason) g = cancel_all reason g
step (rotated id) g = rotate id g
step (remove_begun id) g = (begin_remove id g).1
step (remove_released id) g = release_removed id g
step (remove_finished id) g = finish_remove id g

unfoldable pub run : List Call → ChannelRegistry → ChannelRegistry
run [] g = g
run (c ∷ cs) g = run cs (step c g)

unfoldable pub is_close : ActorCall → Bool
is_close close_call = true
is_close _ = false

-- Whether the actor was closed.
unfoldable pub closed : ℕ → List (ℕ × ActorCall) → Bool
closed i [] = false
closed i ((j, call) ∷ rest) =
    if eqb i j then (if is_close call then true else closed i rest) else closed i rest

-- No actor is told anything after its close.
unfoldable pub NothingAfterClose : List (ℕ × ActorCall) → List (ℕ × ActorCall) → Type 0
NothingAfterClose before [] = Unit
NothingAfterClose before ((i, call) ∷ rest) =
    (closed i before ≡ false) × NothingAfterClose (before ++ (i, call) ∷ []) rest

closed-append :
    (i : ℕ) (xs ys : List (ℕ × ActorCall))
    → closed i (xs ++ ys) ≡ (if closed i xs then true else closed i ys)
unfolding closed
closed-append i [] ys = refl
closed-append i ((j, call) ∷ xs) ys = ground (arith, closed-append i xs ys)

pub NothingAfterClose-append :
    (before xs ys : List (ℕ × ActorCall))
    → NothingAfterClose before xs
    → NothingAfterClose (before ++ xs) ys
    → NothingAfterClose before (xs ++ ys)
unfolding NothingAfterClose
NothingAfterClose-append before [] ys h k =
    subst (λ b. NothingAfterClose b ys) (append-nil before) k
NothingAfterClose-append before ((i, call) ∷ xs) ys h k = (
  h.0,
  NothingAfterClose-append (before ++ (i, call) ∷ []) xs ys h.1
      (subst (λ b. NothingAfterClose b ys) (sym (append_assoc before ((i, call) ∷ []) xs)) k),
)

-- The actors of a registry are different.
abbrev pub Injective : JsMap ℕ → Type 0
Injective [] = Unit
Injective ((l, i) ∷ m) = All (λ e. eqb i e.1 ≡ false) m × Injective m

-- An actor of the registry is not closed, and was made.
abbrev pub IsLive : List (ℕ × ActorCall) → ℕ → String × ℕ → Type 0
IsLive calls n e = (closed e.1 calls ≡ false) × (e.1 < n)

pub record IsOpen (g : ChannelRegistry) : Type 0 where
  pub quiet : NothingAfterClose [] g.calls
  pub live : All (IsLive g.calls g.created) g.actors
  pub different : Injective g.actors
  pub made : All (λ c. c.0 < g.created) g.calls

pub there : (b rest : Bool) → (if b then true else rest) ≡ false → b ≡ true → ⊥
there b rest a t = cc

pub Injective-set :
    (k : String) (n : ℕ) (m : JsMap ℕ)
    → All (λ e. e.1 < n) m
    → JsMap.has k m ≡ false
    → Injective m
    → Injective (JsMap.set k n m)
unfolding JsMap.set JsMap.has
Injective-set k n [] below new d = (tt, tt)
Injective-set k n ((l, i) ∷ m) below new d = elim (Bool-cases (l == k)) [
  | inl t ↦ absurd (there (l == k) (JsMap.has k m) new t)
  | inr f ↦ rw f (
    All-set (λ e. eqb i e.1 ≡ false) k n m (ground (arith, below.0)) d.0,
    Injective-set k n m below.1 (ground (arith, f, new)) d.1,
  )
]

pub Injective-remove : (k : String) (m : JsMap ℕ) → Injective m → Injective (JsMap.remove k m)
unfolding JsMap.remove
Injective-remove k [] d = d
Injective-remove k ((l, i) ∷ m) d = elim (Bool-cases (l == k)) [
  | inl t ↦ rw t d.1
  | inr f ↦ rw f (All-removed (λ e. eqb i e.1 ≡ false) k m d.0, Injective-remove k m d.1)
]

pub get-All :
    (P : ℕ → Type 0) (k : String) (m : JsMap ℕ) (i : ℕ)
    → All (λ e. P e.1) m
    → JsMap.get k m ≡ some i
    → P i
unfolding JsMap.get
get-All P k [] i a h = cc
get-All P k ((l, w) ∷ m) i a h = elim (Bool-cases (l == k)) [
  | inl t ↦ let same : w ≡ i = ground (arith, t, h) in subst P same a.0
  | inr f ↦ get-All P k m i a.1 (ground (arith, f, h))
]

-- What is left when an actor is taken out are the other actors.
pub remove-others :
    (k : String) (m : JsMap ℕ) (i : ℕ)
    → Injective m
    → JsMap.get k m ≡ some i
    → All (λ e. eqb i e.1 ≡ false) (JsMap.remove k m)
unfolding JsMap.get JsMap.remove
remove-others k [] i d h = tt
remove-others k ((l, w) ∷ m) i d h = elim (Bool-cases (l == k)) [
  | inl t ↦
      let same : w ≡ i = ground (arith, t, h) in
      rw t (subst (λ j. All (λ e. eqb j e.1 ≡ false) m) same d.0)
  | inr f ↦
      let found : JsMap.get k m ≡ some i = ground (arith, f, h) in
      let apart : eqb w i ≡ false = get-All (λ j. eqb w j ≡ false) k m i d.0 found in
      rw f (ground (arith, apart), remove-others k m i d.1 found)
]

-- A call that is not a close leaves the live actors live.
pub live-told :
    (calls more : List (ℕ × ActorCall)) (n : ℕ) (m : JsMap ℕ)
    → All (λ e. closed e.1 more ≡ false) m
    → All (IsLive calls n) m
    → All (IsLive (calls ++ more) n) m
live-told calls more n [] o h = tt
live-told calls more n ((l, i) ∷ m) o h = (
  (ground (arith, closed-append i calls more, h.0, o.0), h.0.1),
  live-told calls more n m o.1 h.1,
)

pub open_calls :
    (more : List (ℕ × ActorCall)) (m : JsMap ℕ)
    → ((j : ℕ) → closed j more ≡ false)
    → All (λ e. closed e.1 more ≡ false) m
open_calls more [] h = tt
open_calls more ((l, i) ∷ m) h = (h i, open_calls more m h)

pub one-open :
    (i : ℕ) (call : ActorCall) → is_close call ≡ false → (j : ℕ) → closed j ((i, call) ∷ []) ≡ false
unfolding closed
one-open i call h j = rw h (ground arith)

pub each-open :
    (call : ActorCall) (m : JsMap ℕ)
    → is_close call ≡ false
    → (j : ℕ) → closed j (tell_each call m) ≡ false
unfolding closed tell_each
each-open call [] h j = refl
each-open call ((l, i) ∷ m) h j = rw (h, each-open call m h j) (ground arith)

pub others-open :
    (i : ℕ) (call : ActorCall) (m : JsMap ℕ)
    → All (λ e. eqb i e.1 ≡ false) m
    → All (λ e. closed e.1 ((i, call) ∷ []) ≡ false) m
unfolding closed
others-open i call [] h = tt
others-open i call ((l, j) ∷ m) h = (ground (arith, h.0), others-open i call m h.1)

-- Telling every live actor something tells nobody that was closed.
pub tell_each-quiet :
    (call : ActorCall) (before : List (ℕ × ActorCall)) (n : ℕ) (m : JsMap ℕ)
    → Injective m
    → All (IsLive before n) m
    → NothingAfterClose before (tell_each call m)
unfolding NothingAfterClose tell_each
tell_each-quiet call before n [] d h = tt
tell_each-quiet call before n ((l, i) ∷ m) d h = (
  h.0.0,
  tell_each-quiet call (before ++ (i, call) ∷ []) n m d.1
      (live-told before ((i, call) ∷ []) n m (others-open i call m d.0) h.1),
)

pub told-made :
    (call : ActorCall) (calls : List (ℕ × ActorCall)) (n : ℕ) (m : JsMap ℕ)
    → All (IsLive calls n) m
    → All (λ c. c.0 < n) (tell_each call m)
unfolding tell_each
told-made call calls n [] h = tt
told-made call calls n ((l, i) ∷ m) h = (h.0.1, told-made call calls n m h.1)

pub not_made-open :
    (n : ℕ) (calls : List (ℕ × ActorCall)) → All (λ c. c.0 < n) calls → closed n calls ≡ false
unfolding closed
not_made-open n [] h = refl
not_made-open n ((i, call) ∷ calls) h = ground (arith, h.0, not_made-open n calls h.1)

pub made-more :
    (n : ℕ) (calls : List (ℕ × ActorCall)) → All (λ c. c.0 < n) calls → All (λ c. c.0 < n + 1) calls
made-more n [] h = tt
made-more n (c ∷ calls) h = (omega (arith, h.0), made-more n calls h.1)
