-- ===== src/LogicalId/RoundTrip.antt =====
-- The publisher reads back the turn and the chunk that the output router wrote into a logical id.
use Prim.Native.String.append
use Prim.Native.Char.{Char, code}
use Prim.Native.String.{◌++◌ as join}
use autogent.Prelude.{
  ℕ, zero, suc, ◌+◌, ◌*◌, ◌/◌, ◌%◌, ◌<◌, ◌≡◌, refl, ◌≢◌, ◌∙◌, ap, String, false, none, some, arith,
  Bool-cases, inl, inr, ltb,
}
use autogent.LogicalId.{
  digit, show_from, show, logical_id, split_first, after_last, number_from, split_logical_id, parts,
  is_colon,
}

-- No colon stands in the text.
abbrev pub NoColon : String → Type 0
NoColon String.[] = Unit
NoColon (String.◌∷◌ c s) = (is_colon c ≡ false) × NoColon s

digit_code : (n : ℕ) → n < 10 → code (digit n) ≡ 48 + n
digit_code zero h = refl
digit_code (suc zero) h = refl
digit_code (suc (suc zero)) h = refl
digit_code (suc (suc (suc zero))) h = refl
digit_code (suc (suc (suc (suc zero)))) h = refl
digit_code (suc (suc (suc (suc (suc zero))))) h = refl
digit_code (suc (suc (suc (suc (suc (suc zero)))))) h = refl
digit_code (suc (suc (suc (suc (suc (suc (suc zero))))))) h = refl
digit_code (suc (suc (suc (suc (suc (suc (suc (suc zero)))))))) h = refl
digit_code (suc (suc (suc (suc (suc (suc (suc (suc (suc zero))))))))) h = refl
digit_code (suc (suc (suc (suc (suc (suc (suc (suc (suc (suc n)))))))))) h = absurd (omega arith)

number_from-digit :
    (a n : ℕ) (s : String)
    → n < 10
    → number_from a (String.◌∷◌ (digit n) s) ≡ number_from (a * 10 + n) s
unfolding number_from
number_from-digit a n s h = ground (arith, digit_code n h)

number_from-show_from :
    (f n : ℕ) (acc : String) → n < f → number_from 0 (show_from f n acc) ≡ number_from n acc
unfolding show_from
number_from-show_from zero n acc h = elim h [ ]
number_from-show_from (suc f) n acc h = elim (Bool-cases (ltb n 10)) [
  | inl small ↦
      rw small
        (number_from-digit 0 n acc (ground arith) ∙ ap (λ k. number_from k acc) (omega arith))
  | inr large ↦ rw large (
      number_from-show_from f (n / 10) (String.◌∷◌ (digit (n % 10)) acc) (ground arith)
      ∙ number_from-digit (n / 10) (n % 10) acc (omega arith)
      ∙ ap (λ k. number_from k acc) (omega arith))
]

show_from-NoColon : (f n : ℕ) (acc : String) → n < f → NoColon acc → NoColon (show_from f n acc)
unfolding show_from
show_from-NoColon zero n acc h a = a
show_from-NoColon (suc f) n acc h a = elim (Bool-cases (ltb n 10)) [
  | inl small ↦ rw small (ground (arith, digit_code n (ground arith)), a)
  | inr large ↦ rw large (
      show_from-NoColon f (n / 10) (String.◌∷◌ (digit (n % 10)) acc) (ground arith)
        (ground (arith, digit_code (n % 10) (omega arith)), a))
]

nil-join : (t : String) → join String.[] t ≡ t
nil-join t = λ i. append.nil t i

cons-join : (c : Char) (s t : String) → join (String.◌∷◌ c s) t ≡ String.◌∷◌ c (join s t)
cons-join c s t = λ i. append.cons c s t i

colon-join : (s : String) → join ":" s ≡ String.◌∷◌ ":" s
colon-join s = cons-join ":" String.[] s ∙ ap (String.◌∷◌ ":") (nil-join s)

after_last-NoColon : (s : String) → NoColon s → after_last s ≡ none
unfolding after_last
after_last-NoColon String.[] h = refl
after_last-NoColon (String.◌∷◌ c s) h = rw (after_last-NoColon s h.1, h.0)

after_last-join : (m d : String) → NoColon d → after_last (join m (join ":" d)) ≡ some d
unfolding after_last
after_last-join String.[] d h = rw (nil-join, colon-join) (rw (after_last-NoColon d h))
after_last-join (String.◌∷◌ c m) d h = rw cons-join (rw (after_last-join m d h))

split_first-join : (t s : String) → NoColon t → split_first (join t (join ":" s)) ≡ some (t, s)
unfolding split_first
split_first-join String.[] s h = rw (nil-join, colon-join) refl
split_first-join (String.◌∷◌ c t) s h = rw cons-join (rw (h.0, split_first-join t s h.1))

parts_lem :
    (id turn rest digits : String) (n : ℕ)
    → turn ≢ ""
    → after_last rest ≡ some digits
    → number_from 0 digits ≡ some n
    → parts id (some (turn, rest)) ≡ record { turn_id = turn; ordinal = n }
unfolding parts
parts_lem id String.[] rest digits n ne a e = absurd (ne refl)
parts_lem id (String.◌∷◌ c t) rest digits n ne a e = rw (a, parts) (rw e)

-- Where the turn's id is not empty and holds no colon, the publisher takes the logical id of a chunk
-- apart into that turn and the chunk's index, whatever the message's id is. So the number by which
-- the publisher orders a turn's outputs is the index of the chunk within its own message.
pub split_logical_id-logical_id :
    (turn message : String) (chunk : ℕ)
    → turn ≢ ""
    → NoColon turn
    → split_logical_id (logical_id turn message chunk) ≡ record { turn_id = turn; ordinal = chunk }
unfolding split_logical_id logical_id
split_logical_id-logical_id turn message chunk ne h =
    rw (split_first-join turn (join message (join ":" (show chunk))) h) (
      parts_lem _ turn _ (show chunk) chunk ne
        (after_last-join message (show chunk)
          (show_from-NoColon (suc chunk) chunk "" (omega arith) tt))
        (number_from-show_from (suc chunk) chunk "" (omega arith)))
