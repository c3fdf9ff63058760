-- ===== src/State/Channels/Sequence.antt =====
-- The observer sequence of src/state/channel-repository.ts against a count of its calls.
use autogent.Prelude.{
  ℕ, ◌+◌, ◌-◌, ◌≡◌, ◌≢◌, refl, ◌∙◌, ap, sym, String, Bool, true, false, Option, none, some, List,
  [], ◌∷◌, arith, Bool-cases, inl, inr, if◌then◌else◌, ◌==◌, eq_refl, eq_iff, ne_of_eqb,
}
use mathlib.Core.Option
use mathlib.Core.Path.{subst}
use autogent.State.Table.{find, any}
use autogent.State.Table.Laws.{
  when, or_else, is_some, find-update, find-append, any-find, any-update, any-append, find_sound,
}
use autogent.State.Channels.{ObserverState, is_session, bump, next_observer_seq, returned}

-- What calls of `nextObserverSeq` for the listed sessions return, in order.
unfoldable pub allocate : List String → List ObserverState → List (Option ℕ)
unfolding next_observer_seq
allocate [] rows = []
allocate (id ∷ ids) rows = let (seq, rows') = next_observer_seq id rows in seq ∷ allocate ids rows'

-- How often a session is in a list.
unfoldable pub count : String → List String → ℕ
count id [] = 0
count id (x ∷ xs) = (if x == id then 1 else 0) + count id xs

-- The number of a call is one more than the calls for the same session before it.
unfoldable pub numbered : List String → List String → List (Option ℕ)
unfolding count
numbered earlier [] = []
numbered earlier (id ∷ ids) = some (1 + count id earlier) ∷ numbered (id ∷ earlier) ids

next_of : Option ObserverState → ℕ
next_of none = 1
next_of (some row) = row.next_seq

-- The counter of a session, which starts at 1.
counter : String → List ObserverState → ℕ
unfolding next_of
counter id rows = next_of (find (is_session id) rows)

-- The table after a call.
abbrev after : String → List ObserverState → List ObserverState
after id rows = (next_observer_seq id rows).1

bump_same : (j : String) (row : ObserverState) → is_session j (bump row) ≡ is_session j row
unfolding is_session bump
bump_same j row = refl

bumped_own :
    (id : String) (o : Option ObserverState)
    → ((row : ObserverState) → o ≡ some row → is_session id row ≡ true)
    → is_some o ≡ true
    → next_of (Option.map (when (is_session id) bump) o) ≡ next_of o + 1
unfolding next_of bump
bumped_own id none sound h = cc
bumped_own id (some row) sound h = rw (sound row refl) refl

bumped_other :
    (id j : String) (o : Option ObserverState)
    → ((row : ObserverState) → o ≡ some row → is_session j row ≡ true)
    → j ≢ id
    → next_of (Option.map (when (is_session id) bump) o) ≡ next_of o
unfolding next_of bump is_session
bumped_other id j none sound ne = refl
bumped_other id j (some row) sound ne =
    ground (arith, sound row refl, eq_iff row.session_id j, eq_iff row.session_id id, ne)

created_own :
    (id : String) (o : Option ObserverState)
    → is_some o ≡ false
    → next_of (or_else o (find (is_session id) (record { session_id = id; next_seq = 2 } ∷ [])))
      ≡ next_of o + 1
unfolding next_of find is_session
created_own id none h = rw (eq_refl id) refl
created_own id (some row) h = cc

created_other :
    (id j : String) (o : Option ObserverState)
    → j ≢ id
    → next_of (or_else o (find (is_session j) (record { session_id = id; next_seq = 2 } ∷ [])))
      ≡ next_of o
unfolding next_of find is_session
created_other id j none ne = ground (arith, eq_iff id j, ne)
created_other id j (some row) ne = refl

counter-after :
    (id : String) (rows : List ObserverState) → counter id (after id rows) ≡ counter id rows + 1
unfolding counter next_observer_seq
counter-after id rows = elim (Bool-cases (any (is_session id) rows)) [
  | inl there ↦ rw there (
      ap next_of (find-update (is_session id) (is_session id) bump rows (bump_same id))
      ∙ bumped_own id (find (is_session id) rows) (λ row e. find_sound (is_session id) rows e)
          (sym (any-find (is_session id) rows) ∙ there))
  | inr new ↦ rw new (
      ap next_of (find-append (is_session id) rows (record { session_id = id; next_seq = 2 } ∷ []))
      ∙ created_own id (find (is_session id) rows) (sym (any-find (is_session id) rows) ∙ new))
]

counter-after_other :
    (id j : String) (rows : List ObserverState)
    → j ≢ id
    → counter j (after id rows) ≡ counter j rows
unfolding counter next_observer_seq
counter-after_other id j rows ne = elim (Bool-cases (any (is_session id) rows)) [
  | inl there ↦ rw there (
      ap next_of (find-update (is_session j) (is_session id) bump rows (bump_same j))
      ∙ bumped_other id j (find (is_session j) rows) (λ row e. find_sound (is_session j) rows e) ne)
  | inr new ↦ rw new (
      ap next_of (find-append (is_session j) rows (record { session_id = id; next_seq = 2 } ∷ []))
      ∙ created_other id j (find (is_session j) rows) ne)
]

returned_of : (o : Option ObserverState) → is_some o ≡ true → returned o ≡ some (next_of o - 1)
unfolding returned next_of
returned_of none h = cc
returned_of (some row) h = refl

any_new :
    (id : String) (old : Bool)
    → (if old then true else any (is_session id) (record { session_id = id; next_seq = 2 } ∷ []))
      ≡ true
unfolding any is_session
any_new id old = ground (arith, eq_refl id)

less_one : {m n : ℕ} → m ≡ n + 1 → m - 1 ≡ n
less_one e = omega arith

after-there : (id : String) (rows : List ObserverState) → any (is_session id) (after id rows) ≡ true
unfolding next_observer_seq
after-there id rows = elim (Bool-cases (any (is_session id) rows)) [
  | inl there ↦
      rw there (any-update (is_session id) (is_session id) bump rows (bump_same id) ∙ there)
  | inr new ↦ rw new (
      any-append (is_session id) rows (record { session_id = id; next_seq = 2 } ∷ [])
      ∙ any_new id _)
]

next_observer_seq-counter :
    (id : String) (rows : List ObserverState)
    → (next_observer_seq id rows).0 ≡ some (counter id rows)
unfolding counter next_observer_seq
next_observer_seq-counter id rows =
    returned_of (find (is_session id) (after id rows))
      (sym (any-find (is_session id) (after id rows)) ∙ after-there id rows)
    ∙ ap some (less_one (counter-after id rows))

-- The table holds for each session one more than the calls for it.
abbrev IsCounting : List String → List ObserverState → Type 0
IsCounting earlier rows = (id : String) → counter id rows ≡ 1 + count id earlier

after-IsCounting :
    (id : String) (earlier : List String) (rows : List ObserverState)
    → IsCounting earlier rows
    → IsCounting (id ∷ earlier) (after id rows)
unfolding count
after-IsCounting id earlier rows c j = elim (Bool-cases (id == j)) [
  | inl t ↦
      let same : id ≡ j = ground (arith, eq_iff id j, t) in
      subst (λ k. counter k (after id rows) ≡ 1 + ((if id == k then 1 else 0) + count k earlier))
        same (rw (eq_refl id) (omega (arith, counter-after id rows, c id)))
  | inr f ↦ rw f (omega (arith, counter-after_other id j rows (λ e. ne_of_eqb id j f (sym e)), c j))
]

numbered_from :
    (ids earlier : List String) (rows : List ObserverState)
    → IsCounting earlier rows
    → allocate ids rows ≡ numbered earlier ids
unfolding allocate numbered
numbered_from [] earlier rows c = refl
numbered_from (id ∷ ids) earlier rows c =
    ap (λ seq. seq ∷ allocate ids (after id rows))
      (next_observer_seq-counter id rows ∙ ap some (c id))
    ∙ ap (λ rest. some (1 + count id earlier) ∷ rest)
        (numbered_from ids (id ∷ earlier) (after id rows) (after-IsCounting id earlier rows c))

-- On an empty table every call returns a number, whatever sessions the calls are for: the calls for one
-- session are numbered 1, 2, 3 and so on, without a gap or a repetition.
pub allocate-numbered : (ids : List String) → allocate ids [] ≡ numbered [] ids
unfolding counter find count
allocate-numbered ids = numbered_from ids [] [] (λ id. refl)
