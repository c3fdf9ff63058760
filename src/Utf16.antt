-- ===== src/Utf16.antt =====
-- Message bodies as JavaScript holds them: lists of UTF-16 code units. Ids, keys and tags, which the
-- code only compares, joins and takes apart at ASCII characters, are texts.
use autogent.Prelude.{
  ℕ, zero, suc, ◌+◌, Bool, true, false, ◌&&◌, ◌||◌, Option, none, some, List, [], ◌∷◌, eqb, ltb,
  leb, if◌then◌else◌,
}

abbrev pub Utf16 : Type 0
Utf16 = List ℕ

abbrev pub is_high : ℕ → Bool
is_high c = leb 0xd800 c && ltb c 0xdc00

abbrev pub is_low : ℕ → Bool
is_low c = leb 0xdc00 c && ltb c 0xe000

-- The bytes of a unit that is not the first of a pair; a lone surrogate becomes U+FFFD.
abbrev pub unit_bytes : ℕ → ℕ
unit_bytes c = if ltb c 0x80 then 1 else if ltb c 0x800 then 2 else 3

-- `byteLength` of src/runtime/output-router.ts: the length of the UTF-8 encoding.
unfoldable pub byte_length : Utf16 → ℕ
byte_length [] = 0
byte_length (c ∷ []) = unit_bytes c
byte_length (c ∷ d ∷ rest) =
    let pair = 4 + byte_length rest in
    let single = unit_bytes c + byte_length (d ∷ rest) in
    if is_high c && is_low d then pair else single

-- What `trim`, `trimStart` and `trimEnd` remove: WhiteSpace and LineTerminator of ECMAScript.
unfoldable pub is_space : ℕ → Bool
is_space c =
    (leb 0x9 c && leb c 0xd)
    || eqb c 0x20
    || eqb c 0xa0
    || eqb c 0x1680
    || (leb 0x2000 c && leb c 0x200a)
    || eqb c 0x2028
    || eqb c 0x2029
    || eqb c 0x202f
    || eqb c 0x205f
    || eqb c 0x3000
    || eqb c 0xfeff

unfoldable pub trim_start : Utf16 → Utf16
trim_start [] = []
trim_start (c ∷ cs) = let rest = trim_start cs in if is_space c then rest else c ∷ cs

abbrev pub keep_before : ℕ → Utf16 → Utf16
keep_before c [] = if is_space c then [] else c ∷ []
keep_before c (d ∷ ds) = c ∷ d ∷ ds

unfoldable pub trim_end : Utf16 → Utf16
trim_end [] = []
trim_end (c ∷ cs) = keep_before c (trim_end cs)

unfoldable pub take : ℕ → Utf16 → Utf16
take zero cs = []
take (suc n) [] = []
take (suc n) (c ∷ cs) = c ∷ take n cs

unfoldable pub drop : ℕ → Utf16 → Utf16
drop zero cs = cs
drop (suc n) [] = []
drop (suc n) (c ∷ cs) = drop n cs

unfoldable pub starts_with : Utf16 → Utf16 → Bool
starts_with [] cs = true
starts_with (n ∷ ns) [] = false
starts_with (n ∷ ns) (c ∷ cs) = eqb n c && starts_with ns cs

abbrev pub later_or : Option ℕ → Bool → ℕ → Option ℕ
later_or (some j) here i = some j
later_or none here i = if here then some i else none

unfoldable pub last_index_from : ℕ → Utf16 → Utf16 → Option ℕ
last_index_from i needle [] = none
last_index_from i needle (c ∷ cs) =
    later_or (last_index_from (suc i) needle cs) (starts_with needle (c ∷ cs)) i

-- `lastIndexOf` of a text that is not empty.
unfoldable pub last_index_of : Utf16 → Utf16 → Option ℕ
unfolding last_index_from starts_with
last_index_of needle text = last_index_from 0 needle text

is_blank_from : Utf16 → Bool
is_blank_from [] = true
is_blank_from (c ∷ cs) = is_space c && is_blank_from cs

-- `text.trim().length === 0`
unfoldable pub is_blank : Utf16 → Bool
unfolding is_blank_from is_space
is_blank = is_blank_from
