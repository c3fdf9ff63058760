-- ===== src/LogicalId.antt =====
-- The logical id of an output: built by `record` of src/runtime/output-router.ts, and taken apart by
-- `splitLogicalId` of src/nostr/publisher.ts.
pub mod RoundTrip
use Prim.Native.Char.{Char, code}
use Prim.Native.String.{◌++◌ as join}
use autogent.Prelude.{
  ℕ, zero, suc, ◌+◌, ◌-◌, ◌*◌, ◌/◌, ◌%◌, String, Bool, true, false, ◌&&◌, Option, none, some, eqb,
  leb, ltb, if◌then◌else◌,
}

abbrev digit : ℕ → Char
digit zero = "0"
digit (suc zero) = "1"
digit (suc (suc zero)) = "2"
digit (suc (suc (suc zero))) = "3"
digit (suc (suc (suc (suc zero)))) = "4"
digit (suc (suc (suc (suc (suc zero))))) = "5"
digit (suc (suc (suc (suc (suc (suc zero)))))) = "6"
digit (suc (suc (suc (suc (suc (suc (suc zero))))))) = "7"
digit (suc (suc (suc (suc (suc (suc (suc (suc zero)))))))) = "8"
digit _ = "9"

-- The digits of `n` before `acc`; the fuel is a number above `n`.
pub show_from : ℕ → ℕ → String → String
show_from zero n acc = acc
show_from (suc f) n acc =
    let more = show_from f (n / 10) (String.◌∷◌ (digit (n % 10)) acc) in
    if ltb n 10 then String.◌∷◌ (digit n) acc else more

-- A number inside a template literal.
unfoldable pub show : ℕ → String
unfolding show_from
show n = show_from (suc n) n ""

-- `${turnId}:${piMessageId}:${chunkIndex}`
unfoldable pub logical_id : String → String → ℕ → String
unfolding show
logical_id turn message chunk = join turn (join ":" (join message (join ":" (show chunk))))

abbrev pub is_colon : Char → Bool
is_colon c = eqb (code c) b':'

abbrev prefixed : Char → Option (String × String) → Option (String × String)
prefixed c none = none
prefixed c (some (a, b)) = some (String.◌∷◌ c a, b)

-- The text before and after the first colon (`indexOf`).
pub split_first : String → Option (String × String)
split_first String.[] = none
split_first (String.◌∷◌ c s) =
    let rest = split_first s in if is_colon c then some ("", s) else prefixed c rest

abbrev or_here : Option String → Bool → String → Option String
or_here (some r) here s = some r
or_here none here s = if here then some s else none

-- The text after the last colon (`lastIndexOf`).
pub after_last : String → Option String
after_last String.[] = none
after_last (String.◌∷◌ c s) = or_here (after_last s) (is_colon c) s

-- `Number(text)` of decimal digits, the empty text being 0; `none` stands for NaN. The other forms
-- that JavaScript reads (signs, exponents, blanks, hexadecimal) count as NaN here.
pub number_from : ℕ → String → Option ℕ
number_from n String.[] = some n
number_from n (String.◌∷◌ c s) =
    if leb b'0' (code c) && leb (code c) b'9'
    then number_from (n * 10 + (code c - b'0')) s
    else none

pub record LogicalIdParts : Type 0 where
  pub turn_id : String
  pub ordinal : ℕ

abbrev or_zero : Option ℕ → ℕ
or_zero none = 0
or_zero (some n) = n

parts : String → Option (String × String) → LogicalIdParts
parts id none = record { turn_id = id; ordinal = 0 }
parts id (some (String.[], rest)) = record { turn_id = id; ordinal = 0 }
parts id (some (turn, rest)) = elim (after_last rest) [
  | none ↦ record { turn_id = id; ordinal = 0 }
  | some digits ↦ record { turn_id = turn; ordinal = or_zero (number_from 0 digits) }
]

unfoldable pub split_logical_id : String → LogicalIdParts
unfolding split_first after_last number_from parts
split_logical_id id = parts id (split_first id)
