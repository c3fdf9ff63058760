-- ===== src/Subscriptions/Window.antt =====
-- The dedup set of src/nostr/subscriptions.ts against the history of the ids that it admitted.
use autogent.Prelude.{
  ℕ, suc, zero, ◌*◌, ◌<◌, ◌≤◌, ◌≡◌, refl, ◌⊎◌, inl, inr, String, false, ◌||◌, List, [], ◌∷◌, ◌++◌,
  length, length-append, append_assoc, append-nil, arith, Bool-cases, leb, if◌then◌else◌, ap, ◌∙◌,
}
use autogent.Subscriptions.{SeenEventIds, create_seen, has, size, rotate, admit}
use autogent.Turn.{includes}

-- The newest `n` of a history that is kept from the newest to the oldest.
unfoldable pub newest : ℕ → List String → List String
newest zero h = []
newest (suc n) [] = []
newest (suc n) (x ∷ h) = x ∷ newest n h

-- The promise of the set: no id gets through when it is among the `n` that got through last.
unfoldable pub Spaced : ℕ → List String → Type 0
Spaced n [] = Unit
Spaced n (x ∷ h) = (includes x (newest n h) ≡ false) × Spaced n h

-- The set after a list of events, and the ids that it let through, from the newest.
unfoldable pub admit_all : List String → SeenEventIds → List String → SeenEventIds × List String
unfolding admit
admit_all [] s h = (s, h)
admit_all (id ∷ ids) s h =
    let (fresh, s') = admit id s in admit_all ids s' (if fresh then id ∷ h else h)

includes-append :
    (x : String) (xs ys : List String) → includes x (xs ++ ys) ≡ (includes x xs || includes x ys)
unfolding includes
includes-append x [] ys = refl
includes-append x (y ∷ xs) ys = ground (arith, includes-append x xs ys)

includes-newest :
    (x : String) (n : ℕ) (xs ys : List String)
    → n ≤ length xs
    → includes x xs ≡ false
    → includes x (newest n (xs ++ ys)) ≡ false
unfolding newest includes
includes-newest x zero xs ys h e = refl
includes-newest x (suc n) [] ys h e = absurd (omega arith)
includes-newest x (suc n) (y ∷ xs) ys h e =
    ground (arith, includes-newest x n xs ys (omega (arith, h)))

includes-newest_all :
    (x : String) (n : ℕ) (xs : List String)
    → includes x xs ≡ false
    → includes x (newest n xs) ≡ false
unfolding newest includes
includes-newest_all x zero xs e = refl
includes-newest_all x (suc n) [] e = refl
includes-newest_all x (suc n) (y ∷ xs) e = ground (arith, includes-newest_all x n xs)

-- The two generations are the newest part of the history. The live one is not full, and the
-- previous one holds `rotate_at` ids unless nothing older was admitted.
pub record IsWindow (n : ℕ) (s : SeenEventIds) (h older : List String) : Type 0 where
  pub part : h ≡ (s.current ++ s.previous) ++ older
  pub live : length s.current < n
  pub bounded : length s.previous ≤ n
  pub full : (older ≡ []) ⊎ (length s.previous ≡ n)
  pub kept : s.rotate_at ≡ n

abbrev Remembers : ℕ → SeenEventIds → List String → Type 0
Remembers n s h = (older : List String) × IsWindow n s h older

-- What the set does not hold is not among the newest `n` of the history.
not_newest :
    (n : ℕ) (s : SeenEventIds) (h older : List String) (x : String)
    → IsWindow n s h older
    → has x s ≡ false
    → includes x (newest n h) ≡ false
unfolding has
not_newest n s h older x w e = elim w.full [
  | inl none_older ↦
      let p : h ≡ s.current ++ s.previous =
        w.part
        ∙ (ap (λ o. (s.current ++ s.previous) ++ o) none_older
            ∙ append-nil (s.current ++ s.previous)) in
      rw p (
        includes-newest_all x n (s.current ++ s.previous)
          (includes-append x s.current s.previous ∙ e))
  | inr full ↦ rw w.part (
      includes-newest x n (s.current ++ s.previous) older
        (omega (arith, full, length-append s.current s.previous))
        (includes-append x s.current s.previous ∙ e))
]

rotate-Remembers :
    (n : ℕ) (s : SeenEventIds) (h older : List String) (x : String)
    → IsWindow n s h older
    → Remembers n (rotate (record s { current = x ∷ s.current })) (x ∷ h)
unfolding rotate
rotate-Remembers n s h older x w = elim (Bool-cases (leb s.rotate_at (suc (length s.current)))) [
  | inl full ↦ rw full (
    s.previous ++ older,
    record {
      part = ap (λ l. x ∷ l) (w.part ∙ append_assoc s.current s.previous older);
      live = omega (arith, w.live);
      bounded = omega (arith, w.live);
      full = inr ground (arith, w.live, w.kept, full);
      kept = w.kept;
    },
  )
  | inr room ↦ rw room (
    older,
    record {
      part = ap (λ l. x ∷ l) w.part;
      live = ground (arith, w.live, w.kept, room);
      bounded = w.bounded;
      full = w.full;
      kept = w.kept;
    },
  )
]

-- What the set has let through so far is spaced, and the set is its newest part.
abbrev IsRun : ℕ → SeenEventIds → List String → Type 0
IsRun n s h = Spaced n h × Remembers n s h

admit-IsRun :
    (n : ℕ) (id : String) (s : SeenEventIds) (h : List String)
    → IsRun n s h
    → IsRun n (admit id s).1 (if (admit id s).0 then id ∷ h else h)
unfolding admit Spaced
admit-IsRun n id s h (spaced, (older, w)) = elim (Bool-cases (has id s)) [
  | inl old ↦ rw old (spaced, (older, w))
  | inr new ↦ rw new ((not_newest n s h older id w new, spaced), rotate-Remembers n s h older id w)
]

admit_all-IsRun :
    (n : ℕ) (ids : List String) (s : SeenEventIds) (h : List String)
    → IsRun n s h
    → IsRun n (admit_all ids s h).0 (admit_all ids s h).1
unfolding admit_all
admit_all-IsRun n [] s h r = r
admit_all-IsRun n (id ∷ ids) s h r = admit_all-IsRun n ids (admit id s).1 _ (admit-IsRun n id s h r)

new-IsRun : (n : ℕ) → 1 ≤ n → IsRun n (create_seen n) []
unfolding create_seen Spaced
new-IsRun n h = (
  tt,
  (
    [],
    record {
      part = refl;
      live = omega (arith, h);
      bounded = omega arith;
      full = inl refl;
      kept = refl;
    },
  ),
)

kept_enough :
    (n : ℕ) (s : SeenEventIds) {h : List String} (older : List String)
    → IsWindow n s h older
    → (older ≡ []) ⊎ (n ≤ size s)
unfolding size
kept_enough n s older w = ground (arith, w.full)

-- A dedup set that rotates at `n` ids, one at least, after any ids: whatever it let through was not
-- among the `n` ids let through before it, the ids that it holds are the newest ones let
-- through, at least `n` of them unless fewer were let through, and it holds fewer than `2 * n`.
pub admit_all-Spaced :
    (n : ℕ) (ids : List String)
    → 1 ≤ n
    → let (s, h) = admit_all ids (create_seen n) [] in
      Spaced n h
      × (((older : List String) × ((h ≡ (s.current ++ s.previous) ++ older)
              × ((older ≡ []) ⊎ (n ≤ size s))))
          × (size s < 2 * n))
unfolding size
admit_all-Spaced n ids h =
    let (spaced, (older, w)) = admit_all-IsRun n ids (create_seen n) [] (new-IsRun n h) in
    (spaced, ((older, (w.part, kept_enough n _ older w)), omega (arith, w.live, w.bounded)))
