-- ===== src/Output/Split/Bounds.antt =====
-- The size of the chunks that `splitMessage` of src/runtime/output-router.ts makes.
use autogent.Prelude.{
  ℕ, zero, suc, ◌+◌, ◌*◌, ◌/◌, ◌≤◌, ◌≡◌, refl, Bool, true, false, ◌&&◌, Option, none, some, List,
  [], ◌∷◌, length, arith, eqb, ltb, leb, if_cases, if◌then◌else◌, All,
}
use mathlib.Core.Path.{subst}
use native.Mathlib.Nat.{le_trans}
use autogent.Utf16.{
  Utf16, byte_length, trim_start, take, drop, starts_with, later_or, last_index_from, last_index_of,
}
use autogent.Output.Split.{
  grow, shrink, chunk_end, end_of, or_else, last_index_before, boundary_of, chunks_of, with_chunk,
  last_chunk, is_nonempty, nonempty, split_message, filtered,
}
use autogent.Output.Split.Progress.{split_message-IsSome}
use autogent.Output.Split.Prefix.{byte_length-take, length-take, byte_length-trim_end}

fits_of_stop :
    (rest : Utf16) (max cut : ℕ)
    → (ltb 0 cut && ltb max (byte_length (take cut rest))) ≡ false
    → byte_length (take cut rest) ≤ max
unfolding take byte_length
fits_of_stop rest max zero t = omega arith
fits_of_stop rest max (suc cut) t = ground arith

shrink_fits :
    (f : ℕ) (rest : Utf16) (max cut : ℕ)
    → cut ≤ f
    → byte_length (take (shrink f rest max cut) rest) ≤ max
unfolding shrink take byte_length
shrink_fits zero rest max cut h = ground arith
shrink_fits (suc f) rest max cut h =
    if_cases (λ n. byte_length (take n rest) ≤ max)
      (ltb 0 cut && ltb max (byte_length (take cut rest)))
      (λ t. shrink_fits f rest max (cut * 9 / 10) (smaller t)) (λ t. fits_of_stop rest max cut t)
  where
    smaller : (ltb 0 cut && ltb max (byte_length (take cut rest))) ≡ true → cut * 9 / 10 ≤ f
    smaller t = ground arith

grow_fits :
    (f : ℕ) (rest : Utf16) (max cut : ℕ)
    → byte_length (take cut rest) ≤ max
    → byte_length (take (grow f rest max cut) rest) ≤ max
unfolding grow
grow_fits zero rest max cut h = h
grow_fits (suc f) rest max cut h =
    if_cases (λ n. byte_length (take n rest) ≤ max)
      (ltb cut (length rest) && leb (byte_length (take (suc cut) rest)) max)
      (λ t. grow_fits f rest max (suc cut) (fits t)) (λ _. h)
  where
    fits :
        (ltb cut (length rest) && leb (byte_length (take (suc cut) rest)) max) ≡ true
        → byte_length (take (suc cut) rest) ≤ max
    fits t = ground arith

starts_with-length : (ns cs : Utf16) → starts_with ns cs ≡ true → length ns ≤ length cs
unfolding starts_with
starts_with-length [] cs h = omega arith
starts_with-length (n ∷ ns) [] h = ground arith
starts_with-length (n ∷ ns) (c ∷ cs) h = ground (arith, starts_with-length ns cs)

-- An index that is found, with the text looked for, lies inside.
abbrev Inside : ℕ → ℕ → Option ℕ → Type 0
Inside width limit none = Unit
Inside width limit (some i) = i + width ≤ limit

last_index_from-Inside :
    (i : ℕ) (needle cs : Utf16)
    → Inside (length needle) (i + length cs) (last_index_from i needle cs)
unfolding last_index_from
last_index_from-Inside i needle [] = tt
last_index_from-Inside i needle (c ∷ cs) =
    later (last_index_from (suc i) needle cs) (starts_with needle (c ∷ cs)) refl
      (last_index_from-Inside (suc i) needle cs)
  where
    later :
        (o : Option ℕ) (here : Bool)
        → starts_with needle (c ∷ cs) ≡ here
        → Inside (length needle) (suc i + length cs) o
        → Inside (length needle) (i + suc (length cs)) (later_or o here i)
    later (some j) here e h = omega arith
    later none true e h = omega (arith, starts_with-length needle (c ∷ cs) e)
    later none false e h = tt

abbrev Within : ℕ → Option ℕ → Type 0
Within limit none = Unit
Within limit (some i) = i ≤ limit

last_index_before-Within :
    (text needle : Utf16) → Within (length text) (last_index_before text needle)
unfolding last_index_of
last_index_before-Within text needle =
    found (last_index_from 0 needle text) (last_index_from-Inside 0 needle text)
  where
    found :
        (o : Option ℕ)
        → Inside (length needle) (0 + length text) o
        → Within
            (length text)
            (elim o [ none ↦ none | some i ↦ if eqb i 0 then none else some (i + length needle) ])
    found none h = tt
    found (some i) h = if_cases (Within (length text)) (eqb i 0) (λ _. tt) (λ _. omega arith)

or_else-Within :
    (limit : ℕ) (a b : Option ℕ) → Within limit a → Within limit b → Within limit (or_else a b)
or_else-Within limit none b h k = k
or_else-Within limit (some i) b h k = h

boundary_of-Within : (window : Utf16) → Within (length window) (boundary_of window)
unfolding boundary_of
boundary_of-Within window =
    or_else-Within _ _ _ (last_index_before-Within window _)
      (or_else-Within _ _ _ (last_index_before-Within window _) (last_index_before-Within window _))

end_of-Within :
    (cut : ℕ) (b : Option ℕ) (limit : ℕ) → Within limit b → limit ≤ cut → end_of cut b ≤ cut
end_of-Within cut none limit h k = omega arith
end_of-Within cut (some b) limit h k =
    if_cases (λ n. n ≤ cut) (ltb cut (b * 2)) (λ _. omega arith) (λ _. omega arith)

chunk_end_fits : (rest : Utf16) (max : ℕ) → byte_length (take (chunk_end rest max) rest) ≤ max
unfolding chunk_end
chunk_end_fits rest max =
    fits_to (grow (length rest) rest max (shrink (length rest) rest max (length rest))) (
      grow_fits (length rest) rest max (shrink (length rest) rest max (length rest))
        (shrink_fits (length rest) rest max (length rest) (omega arith)))
  where
    fits_to :
        (cut : ℕ)
        → byte_length (take cut rest) ≤ max
        → byte_length (take (end_of cut (boundary_of (take cut rest))) rest) ≤ max
    fits_to cut h =
        le_trans
          (byte_length-take (end_of cut (boundary_of (take cut rest))) cut rest (
            end_of-Within cut (boundary_of (take cut rest)) (length (take cut rest))
              (boundary_of-Within (take cut rest)) (length-take cut rest)))
          h

-- The chunks, if there are any.
abbrev Fit : ℕ → Option (List Utf16) → Type 0
Fit max none = Unit
Fit max (some cs) = All (λ c. byte_length c ≤ max) cs

with_chunk-Fit :
    (max : ℕ) (c : Utf16) (o : Option (List Utf16))
    → byte_length c ≤ max
    → Fit max o
    → Fit max (with_chunk c o)
with_chunk-Fit max c none h k = tt
with_chunk-Fit max c (some cs) h k = (h, k)

last_chunk-Fit : (max : ℕ) (c : Utf16) → byte_length c ≤ max → Fit max (some (last_chunk c))
last_chunk-Fit max [] h = tt
last_chunk-Fit max (x ∷ xs) h = (h, tt)

chunks_of-Fit : (f : ℕ) (rest : Utf16) (max : ℕ) → Fit max (chunks_of f rest max)
unfolding chunks_of
chunks_of-Fit zero rest max = tt
chunks_of-Fit (suc f) rest max =
    if_cases (Fit max) (ltb max (byte_length rest))
      (λ _.
        with_chunk-Fit max _ _
          (le_trans (byte_length-trim_end (take (chunk_end rest max) rest))
            (chunk_end_fits rest max))
          (chunks_of-Fit f (trim_start (drop (chunk_end rest max) rest)) max))
      (λ t. last_chunk-Fit max rest (fits t))
  where
    fits : ltb max (byte_length rest) ≡ false → byte_length rest ≤ max
    fits t = ground arith

nonempty-Fit : (max : ℕ) (cs : List Utf16) → Fit max (some cs) → Fit max (some (nonempty cs))
unfolding nonempty
nonempty-Fit max [] h = tt
nonempty-Fit max (c ∷ cs) h =
    if_cases (All (λ c. byte_length c ≤ max)) (is_nonempty c) (λ _. (h.0, nonempty-Fit max cs h.1))
      (λ _. nonempty-Fit max cs h.1)

split_message-Fit : (text : Utf16) (max : ℕ) → Fit max (split_message text max)
unfolding split_message
split_message-Fit text max =
    if_cases (Fit max) (leb (byte_length text) max) (λ t. (fits t, tt))
      (λ _.
        filtered-Fit (chunks_of (suc (length text)) text max)
          (chunks_of-Fit (suc (length text)) text max))
  where
    fits : leb (byte_length text) max ≡ true → byte_length text ≤ max
    fits t = ground arith

    filtered-Fit : (o : Option (List Utf16)) → Fit max o → Fit max (filtered o)
    filtered-Fit none h = tt
    filtered-Fit (some cs) h = nonempty-Fit max cs h

-- Where the limit is three bytes at least, a text of any length is split into chunks (its loops end), none
-- of which is larger than the limit.
pub split_message_bounded :
    (text : Utf16) (max : ℕ)
    → 3 ≤ max
    → (chunks : List Utf16) × (split_message text max ≡ some chunks)
      × All (λ c. byte_length c ≤ max) chunks
split_message_bounded text max h =
    let (cs, e) = split_message-IsSome text max h in
    (cs, e, subst (Fit max) e (split_message-Fit text max))
