-- ===== src/Output/Split.antt =====
-- `splitMessage` of src/runtime/output-router.ts. A loop with fuel returns `none` when the fuel is
-- used up; the proofs show how much is enough.
pub mod Progress
pub mod Prefix
pub mod Bounds
use autogent.Prelude.{
  ℕ, zero, suc, ◌+◌, ◌*◌, ◌/◌, Bool, true, false, ◌&&◌, Option, none, some, List, [], ◌∷◌, length,
  eqb, ltb, leb, if◌then◌else◌,
}
use autogent.Utf16.{Utf16, byte_length, trim_start, trim_end, take, drop, last_index_of}

-- The first inner loop: a prefix of `cut` units is made shorter by a tenth until it fits.
-- `Math.floor(cut * 0.9)` is 9 * cut / 10.
pub shrink : ℕ → Utf16 → ℕ → ℕ → ℕ
shrink zero rest max cut = cut
shrink (suc f) rest max cut =
    let smaller = shrink f rest max (cut * 9 / 10) in
    if ltb 0 cut && ltb max (byte_length (take cut rest)) then smaller else cut

-- The second inner loop: the prefix grows by a unit while it still fits.
pub grow : ℕ → Utf16 → ℕ → ℕ → ℕ
grow zero rest max cut = cut
grow (suc f) rest max cut =
    let larger = grow f rest max (suc cut) in
    if ltb cut (length rest) && leb (byte_length (take (suc cut) rest)) max then larger else cut

abbrev pub last_index_before : Utf16 → Utf16 → Option ℕ
last_index_before text needle = elim (last_index_of needle text) [
  | none ↦ none
  | some i ↦ if eqb i 0 then none else some (i + length needle)
]

abbrev pub or_else : Option ℕ → Option ℕ → Option ℕ
or_else none b = b
or_else (some a) b = some a

-- Paragraph, then line, then word.
pub boundary_of : Utf16 → Option ℕ
boundary_of window =
    or_else (last_index_before window (0xa ∷ 0xa ∷ []))
      (or_else (last_index_before window (0xa ∷ [])) (last_index_before window (0x20 ∷ [])))

abbrev pub end_of : ℕ → Option ℕ → ℕ
end_of cut none = cut
end_of cut (some boundary) = if ltb cut (boundary * 2) then boundary else cut

-- How many units of `rest` the next chunk takes.
pub chunk_end : Utf16 → ℕ → ℕ
unfolding shrink grow boundary_of
chunk_end rest max =
    let cut = grow (length rest) rest max (shrink (length rest) rest max (length rest)) in
    end_of cut (boundary_of (take cut rest))

abbrev pub is_nonempty : Utf16 → Bool
is_nonempty [] = false
is_nonempty (c ∷ cs) = true

unfoldable pub nonempty : List Utf16 → List Utf16
nonempty [] = []
nonempty (c ∷ cs) = let rest = nonempty cs in if is_nonempty c then c ∷ rest else rest

abbrev pub last_chunk : Utf16 → List Utf16
last_chunk [] = []
last_chunk (c ∷ cs) = (c ∷ cs) ∷ []

abbrev pub with_chunk : Utf16 → Option (List Utf16) → Option (List Utf16)
with_chunk c none = none
with_chunk c (some cs) = some (c ∷ cs)

-- The outer loop: the chunks that are pushed from here on.
pub chunks_of : ℕ → Utf16 → ℕ → Option (List Utf16)
chunks_of zero rest max = none
chunks_of (suc f) rest max =
    let n = chunk_end rest max in
    let more = with_chunk (trim_end (take n rest)) (chunks_of f (trim_start (drop n rest)) max) in
    if ltb max (byte_length rest) then more else some (last_chunk rest)

abbrev pub filtered : Option (List Utf16) → Option (List Utf16)
filtered none = none
filtered (some cs) = some (nonempty cs)

-- `none` is a loop that does not end within as many rounds as the text has units, and one more.
unfoldable pub split_message : Utf16 → ℕ → Option (List Utf16)
unfolding chunk_end chunks_of nonempty
split_message text max =
    if leb (byte_length text) max
    then some (text ∷ [])
    else filtered (chunks_of (suc (length text)) text max)
