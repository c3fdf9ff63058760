-- ===== src/Attestation.antt =====
-- src/nostr/nip-oa.ts: the owner's attestation of an agent. The signature scheme is outside:
-- `schnorr_verify` is given the signature, the text whose SHA-256 is signed, and the owner's key.
use Prim.Native.String.{◌++◌ as join}
use autogent.Prelude.{
  ℕ, ◌+◌, ◌-◌, ◌*◌, String, Bool, true, false, ◌&&◌, ◌||◌, not, Option, none, some, List, [], ◌∷◌,
  ◌++◌, ◌==◌, eqb, leb, ltb, codes, length, if◌then◌else◌,
}
use autogent.Nostr.{NostrTag}
use autogent.Utf16.{is_space}
use autogent.State.Table.{any, select}
use autogent.Thread.{element, all_hex}

pub record AuthTag : Type 0 where
  pub owner_pubkey : String
  pub conditions : String
  pub signature : String

unfoldable pub is_hex : ℕ → String → Bool
unfolding all_hex
is_hex n s = eqb (length (codes s)) n && all_hex (codes s)

unfoldable pub attestation_preimage : String → String → String
attestation_preimage agent conditions = join "nostr:agent-auth:" (join agent (join ":" conditions))

pub data ConditionProblem : Type 0 where
  whitespace : ConditionProblem
  ampersand_at_an_end : ConditionProblem
  empty_clause : ConditionProblem
  kind_out_of_range : List ℕ → ConditionProblem
  created_at_out_of_range : List ℕ → ConditionProblem
  unrecognised_clause : List ℕ → ConditionProblem

abbrev ampersand : ℕ
ampersand = b'&'

abbrev onto_first : ℕ → List (List ℕ) → List (List ℕ)
onto_first c [] = (c ∷ []) ∷ []
onto_first c (x ∷ xs) = (c ∷ x) ∷ xs

-- `conditions.split("&")`
split_clauses : List ℕ → List (List ℕ)
split_clauses [] = [] ∷ []
split_clauses (c ∷ cs) =
    let rest = split_clauses cs in if eqb c ampersand then [] ∷ rest else onto_first c rest

abbrev prefix_step : ℕ → ℕ → Option (List ℕ) → Option (List ℕ)
prefix_step p c rest = if eqb p c then rest else none

-- What follows a prefix.
after_prefix : List ℕ → List ℕ → Option (List ℕ)
after_prefix [] cs = some cs
after_prefix (p ∷ ps) [] = none
after_prefix (p ∷ ps) (c ∷ cs) = prefix_step p c (after_prefix ps cs)

abbrev is_digit : ℕ → Bool
is_digit c = leb b'0' c && leb c b'9'

digits_value : ℕ → List ℕ → Option ℕ
digits_value n [] = some n
digits_value n (c ∷ cs) =
    let rest = digits_value (n * 10 + (c - b'0')) cs in if is_digit c then rest else none

-- `(0|[1-9][0-9]*)`
decimal : List ℕ → Option ℕ
unfolding digits_value
decimal [] = none
decimal (c ∷ []) = digits_value 0 (c ∷ [])
decimal (c ∷ d ∷ cs) = if eqb c b'0' then none else digits_value 0 (c ∷ d ∷ cs)

decimal_of : Option (List ℕ) → Option ℕ
unfolding decimal
decimal_of none = none
decimal_of (some cs) = decimal cs

abbrev either {ℓ} : {A : Type ℓ} → Option A → Option A → Option A
either none b = b
either (some a) b = some a

kind_clause : List ℕ → Option ℕ
unfolding after_prefix decimal_of
kind_clause c = decimal_of (after_prefix (codes "kind=") c)

created_at_clause : List ℕ → Option ℕ
unfolding after_prefix decimal_of
created_at_clause c =
    either (decimal_of (after_prefix (codes "created_at<") c))
      (decimal_of (after_prefix (codes "created_at>") c))

abbrev out_of_range : ConditionProblem → ℕ → ℕ → List ConditionProblem
out_of_range problem limit value = if ltb limit value then problem ∷ [] else []

clause_problems : List ℕ → Option ℕ → Option ℕ → List ConditionProblem
clause_problems [] kind at = []
clause_problems clause (some value) at = out_of_range (kind_out_of_range clause) 65535 value
clause_problems clause none (some value) =
    out_of_range (created_at_out_of_range clause) 4294967295 value
clause_problems clause none none = unrecognised_clause clause ∷ []

clauses_problems : List (List ℕ) → List ConditionProblem
unfolding kind_clause created_at_clause clause_problems
clauses_problems [] = []
clauses_problems (c ∷ cs) =
    clause_problems c (kind_clause c) (created_at_clause c) ++ clauses_problems cs

starts_with_ampersand : List ℕ → Bool
starts_with_ampersand [] = false
starts_with_ampersand (c ∷ cs) = eqb c ampersand

ends_with_ampersand : List ℕ → Bool
ends_with_ampersand [] = false
ends_with_ampersand (c ∷ []) = eqb c ampersand
ends_with_ampersand (c ∷ d ∷ cs) = ends_with_ampersand (d ∷ cs)

has_empty_clause : List ℕ → Bool
has_empty_clause [] = false
has_empty_clause (c ∷ []) = false
has_empty_clause (c ∷ d ∷ cs) = (eqb c ampersand && eqb d ampersand) || has_empty_clause (d ∷ cs)

abbrev when_so : Bool → ConditionProblem → List ConditionProblem
when_so b p = if b then p ∷ [] else []

unfoldable pub validate_conditions : String → List ConditionProblem
unfolding split_clauses clauses_problems starts_with_ampersand ends_with_ampersand has_empty_clause
validate_conditions conditions =
    let cs = codes conditions in
    if conditions == ""
    then []
    else when_so (any is_space cs) whitespace
      ++ when_so (starts_with_ampersand cs || ends_with_ampersand cs) ampersand_at_an_end
      ++ when_so (has_empty_clause cs) empty_clause
      ++ clauses_problems (split_clauses cs)

abbrev no_problems : List ConditionProblem → Bool
no_problems [] = true
no_problems (p ∷ ps) = false

unfoldable pub verify_attestation : (String → String → String → Bool) → AuthTag → String → Bool
verify_attestation schnorr_verify tag agent =
    is_hex 64 tag.owner_pubkey
    && is_hex 64 agent
    && is_hex 128 tag.signature
    && not (tag.owner_pubkey == agent)
    && no_problems (validate_conditions tag.conditions)
    && schnorr_verify tag.signature (attestation_preimage agent tag.conditions) tag.owner_pubkey

parse_parts : Option String → Option String → Option String → Option String → Option AuthTag
parse_parts (some name) (some owner) (some conditions) (some signature) =
    if name == "auth" && is_hex 64 owner && is_hex 128 signature
    then some (record { owner_pubkey = owner; conditions = conditions; signature = signature })
    else none
parse_parts _ _ _ _ = none

unfoldable pub parse_auth_tag : NostrTag → Option AuthTag
unfolding parse_parts
parse_auth_tag tag = parse_parts (element 0 tag) (element 1 tag) (element 2 tag) (element 3 tag)

abbrev is_named : Option String → Bool
is_named none = false
is_named (some name) = name == "auth"

abbrev single : List NostrTag → Option NostrTag
single (tag ∷ []) = some tag
single _ = none

abbrev parsed : Option NostrTag → Option AuthTag
parsed none = none
parsed (some tag) = parse_auth_tag tag

-- Two `auth` tags are no attestation.
unfoldable pub extract_auth_tag : List NostrTag → Option AuthTag
extract_auth_tag tags = parsed (single (select (λ tag. is_named (element 0 tag)) tags))
