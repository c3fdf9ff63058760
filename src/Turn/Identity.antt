-- ===== src/Turn/Identity.antt =====
-- What holds of a turn's identity, however many inputs steer it.
use autogent.Prelude.{
  ℕ, suc, ◌+◌, ◌≡◌, refl, ap, sym, ◌∙◌, String, Bool, true, false, List, [], ◌∷◌, ◌++◌, map, length,
  arith, Bool-cases, inl, inr, ◌==◌, eq_iff, if◌then◌else◌, All,
}
use mathlib.Core.List.{map-append}
use autogent.State.Table.Laws.{All-append}
use autogent.Turn.{
  TurnContext, CreateTurnContextArgs, TurnInput, SteeringInput, create_turn_context, includes,
  with_steering_input,
}

unfoldable pub with_steering_inputs : TurnContext → List SteeringInput → TurnContext
with_steering_inputs c [] = c
with_steering_inputs c (i ∷ is) = with_steering_inputs (with_steering_input c i) is

-- The ordinals of the inputs, counted from `n`.
abbrev pub NumberedFrom : ℕ → List TurnInput → Type 0
NumberedFrom n [] = Unit
NumberedFrom n (i ∷ is) = (i.ordinal ≡ n) × NumberedFrom (suc n) is

-- No text stands in the list twice.
abbrev pub Distinct : List String → Type 0
Distinct [] = Unit
Distinct (x ∷ xs) = (includes x xs ≡ false) × Distinct xs

-- `c` is the turn that `args` made, with inputs that came later.
pub record IsTurnOf (args : CreateTurnContextArgs) (c : TurnContext) : Type 0 where
  pub same_turn : c.turn_id ≡ args.turn_id
  pub same_channel : c.channel_id ≡ args.channel_id
  pub same_root : c.thread_root_event_id ≡ args.thread_root_event_id
  pub same_trigger : c.primary_trigger_event_id ≡ args.primary_trigger_event_id
  pub same_author : c.primary_author_pubkey ≡ args.primary_author_pubkey
  pub ids_of_inputs : c.accepted_input_event_ids ≡ map (λ i. i.event_id) c.inputs
  pub numbered : NumberedFrom 0 c.inputs
  pub ids_distinct : Distinct c.accepted_input_event_ids
  pub participants_distinct : Distinct c.participant_pubkeys
  pub author_included : includes args.primary_author_pubkey c.participant_pubkeys ≡ true
  pub authors_included : All (λ i. includes i.author_pubkey c.participant_pubkeys ≡ true) c.inputs

NumberedFrom-append :
    (n : ℕ) (is : List TurnInput) (i : TurnInput)
    → NumberedFrom n is
    → i.ordinal ≡ n + length is
    → NumberedFrom n (is ++ i ∷ [])
NumberedFrom-append n [] i h e = (omega arith, tt)
NumberedFrom-append n (j ∷ is) i h e = (h.0, NumberedFrom-append (suc n) is i h.1 (omega arith))

includes-append :
    (x y : String) (xs : List String)
    → includes x (xs ++ y ∷ []) ≡ (if includes x xs then true else y == x)
unfolding includes
includes-append x y [] = ground arith
includes-append x y (z ∷ xs) = ground (arith, includes-append x y xs)

Distinct-append :
    (xs : List String) (y : String) → Distinct xs → includes y xs ≡ false → Distinct (xs ++ y ∷ [])
unfolding includes
Distinct-append [] y d f = (refl, tt)
Distinct-append (x ∷ xs) y d f = (
  ground (arith, includes-append x y xs, eq_iff x y, eq_iff y x),
  Distinct-append xs y d.1 (ground arith),
)

create_turn_context-IsTurnOf :
    (args : CreateTurnContextArgs) → IsTurnOf args (create_turn_context args)
unfolding create_turn_context includes
create_turn_context-IsTurnOf args =
    ground (arith, eq_iff args.primary_author_pubkey args.primary_author_pubkey)

with_participant : String → List String → List String
with_participant x xs = if includes x xs then xs else xs ++ x ∷ []

includes-with_participant :
    (x y : String) (xs : List String)
    → includes x (with_participant y xs) ≡ (if includes x xs then true else y == x)
unfolding with_participant
includes-with_participant x y xs = elim (Bool-cases (includes y xs)) [
  | inl t ↦ rw t (known (y == x) refl t)
  | inr t ↦ rw t (includes-append x y xs)
]
  where
    known :
        (b : Bool)
        → (y == x) ≡ b
        → includes y xs ≡ true
        → includes x xs ≡ (if includes x xs then true else (y == x))
    known true e t = ground (arith, eq_iff y x)
    known false e t = ground arith

Distinct-with_participant :
    (y : String) (xs : List String) → Distinct xs → Distinct (with_participant y xs)
unfolding with_participant
Distinct-with_participant y xs d = elim (Bool-cases (includes y xs)) [
  | inl t ↦ rw t d
  | inr t ↦ rw t (Distinct-append xs y d t)
]

authors-with_participant :
    (y : String) (xs : List String) (is : List TurnInput)
    → All (λ i. includes i.author_pubkey xs ≡ true) is
    → All (λ i. includes i.author_pubkey (with_participant y xs) ≡ true) is
authors-with_participant y xs [] h = tt
authors-with_participant y xs (i ∷ is) h =
    (rw includes-with_participant (rw h.0), authors-with_participant y xs is h.1)

steered-IsTurnOf :
    (args : CreateTurnContextArgs) (c : TurnContext) (i : TurnInput)
    → IsTurnOf args c
    → includes i.event_id c.accepted_input_event_ids ≡ false
    → i.ordinal ≡ length c.inputs
    → IsTurnOf args (record c {
      accepted_input_event_ids = c.accepted_input_event_ids ++ i.event_id ∷ [];
      participant_pubkeys = with_participant i.author_pubkey c.participant_pubkeys;
      inputs = c.inputs ++ i ∷ [];
    })
steered-IsTurnOf args c i h fresh n = record {
  same_turn = h.same_turn;
  same_channel = h.same_channel;
  same_root = h.same_root;
  same_trigger = h.same_trigger;
  same_author = h.same_author;
  ids_of_inputs =
      ap (λ l. l ++ i.event_id ∷ []) h.ids_of_inputs
      ∙ sym (map-append (λ (i : TurnInput). i.event_id) c.inputs (i ∷ []));
  numbered = NumberedFrom-append 0 c.inputs i h.numbered (omega arith);
  ids_distinct = Distinct-append c.accepted_input_event_ids i.event_id h.ids_distinct fresh;
  participants_distinct =
      Distinct-with_participant i.author_pubkey c.participant_pubkeys h.participants_distinct;
  author_included = rw includes-with_participant (rw h.author_included);
  authors_included =
      All-append _ c.inputs (i ∷ [])
        (authors-with_participant i.author_pubkey c.participant_pubkeys c.inputs h.authors_included)
        (included i.author_pubkey c.participant_pubkeys, tt);
}
  where
    included : (x : String) (xs : List String) → includes x (with_participant x xs) ≡ true
    included x xs = rw includes-with_participant (ground (arith, eq_iff x x))

with_steering_input-IsTurnOf :
    (args : CreateTurnContextArgs) (c : TurnContext) (i : SteeringInput)
    → IsTurnOf args c
    → IsTurnOf args (with_steering_input c i)
unfolding with_steering_input with_participant
with_steering_input-IsTurnOf args c i h =
    elim (Bool-cases (includes i.event_id c.accepted_input_event_ids)) [
      | inl t ↦ rw t h
      | inr t ↦ rw t (steered-IsTurnOf args c _ h t refl)
    ]

steering-IsTurnOf :
    (args : CreateTurnContextArgs) (c : TurnContext) (is : List SteeringInput)
    → IsTurnOf args c
    → IsTurnOf args (with_steering_inputs c is)
unfolding with_steering_inputs
steering-IsTurnOf args c [] h = h
steering-IsTurnOf args c (i ∷ is) h =
    steering-IsTurnOf args (with_steering_input c i) is (with_steering_input-IsTurnOf args c i h)

-- However many inputs steer it, a turn keeps its id, its channel, its thread root and the event and
-- author that its outputs answer; its inputs are numbered from 0 in the order of acceptance, no
-- event is taken in twice, no participant is listed twice, and the author of every input is listed.
pub with_steering_inputs-IsTurnOf :
    (args : CreateTurnContextArgs) (is : List SteeringInput)
    → IsTurnOf args (with_steering_inputs (create_turn_context args) is)
with_steering_inputs-IsTurnOf args is =
    steering-IsTurnOf args (create_turn_context args) is (create_turn_context-IsTurnOf args)
