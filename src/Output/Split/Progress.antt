-- ===== src/Output/Split/Progress.antt =====
-- `splitMessage` of src/runtime/output-router.ts comes to an end: every round takes a unit at least.
use autogent.Prelude.{
  ℕ, zero, suc, ◌≤◌, ◌<◌, ◌≡◌, refl, true, ◌&&◌, Option, none, some, List, [], ◌∷◌, length, arith,
  ltb, leb, if_cases,
}
use autogent.Utf16.{Utf16, byte_length, trim_start, take, drop}
use autogent.Output.Split.{
  grow, chunk_end, end_of, chunks_of, with_chunk, nonempty, split_message, filtered,
}

length-trim_start : (cs : Utf16) → length (trim_start cs) ≤ length cs
unfolding trim_start
length-trim_start [] = omega arith
length-trim_start (c ∷ cs) = ground (arith, length-trim_start cs)

length-drop : (n : ℕ) (cs : Utf16) → length (drop n cs) ≤ length cs
unfolding drop
length-drop zero cs = omega arith
length-drop (suc n) [] = omega arith
length-drop (suc n) (c ∷ cs) = omega (arith, length-drop n cs)

length-drop_suc : (n : ℕ) (c : ℕ) (cs : Utf16) → 1 ≤ n → length (drop n (c ∷ cs)) ≤ length cs
unfolding drop
length-drop_suc zero c cs h = omega arith
length-drop_suc (suc n) c cs h = length-drop n cs

grow_above : (f : ℕ) (rest : Utf16) (max cut : ℕ) → cut ≤ grow f rest max cut
unfolding grow
grow_above zero rest max cut = omega arith
grow_above (suc f) rest max cut =
    if_cases (λ n. cut ≤ n) (ltb cut (length rest) && leb (byte_length (take (suc cut) rest)) max)
      (λ _. omega (arith, grow_above f rest max (suc cut))) (λ _. omega arith)

first_unit : (c : ℕ) (cs : Utf16) → byte_length (take 1 (c ∷ cs)) ≤ 3
unfolding take byte_length
first_unit c cs = ground arith

-- From the empty prefix the next unit fits.
grow_from : (f c : ℕ) (cs : Utf16) (max cut : ℕ) → 3 ≤ max → 1 ≤ grow (suc f) (c ∷ cs) max cut
unfolding grow
grow_from f c cs max zero h = ground (arith, first_unit c cs, grow_above f (c ∷ cs) max 1, h)
grow_from f c cs max (suc cut) h = ground (arith, grow_above (suc f) (c ∷ cs) max (suc cut))

end_of_positive : (cut : ℕ) (boundary : Option ℕ) → 1 ≤ cut → 1 ≤ end_of cut boundary
end_of_positive cut none h = h
end_of_positive cut (some b) h = ground arith

chunk_end_positive : (c : ℕ) (cs : Utf16) (max : ℕ) → 3 ≤ max → 1 ≤ chunk_end (c ∷ cs) max
unfolding chunk_end
chunk_end_positive c cs max h = end_of_positive _ _ (grow_from (length cs) c cs max _ h)

abbrev pub IsSome {ℓ} : {A : Type ℓ} → Option A → Type ℓ
IsSome {A = A} o = (a : A) × (o ≡ some a)

with_chunk-IsSome : (c : Utf16) (o : Option (List Utf16)) → IsSome o → IsSome (with_chunk c o)
with_chunk-IsSome c o (cs, e) = (c ∷ cs, rw e refl)

chunks_of-IsSome :
    (f : ℕ) (rest : Utf16) (max : ℕ) → 3 ≤ max → length rest < f → IsSome (chunks_of f rest max)
unfolding chunks_of byte_length
chunks_of-IsSome zero rest max m h = absurd (omega arith)
chunks_of-IsSome (suc f) [] max m h =
    if_cases IsSome (ltb max 0) (λ t. absurd (never t)) (λ _. (_, refl))
  where
    never : ltb max 0 ≡ true → ⊥
    never t = ground arith
chunks_of-IsSome (suc f) (c ∷ cs) max m h =
    if_cases IsSome (ltb max (byte_length (c ∷ cs)))
      (λ _.
        with_chunk-IsSome _ _
          (chunks_of-IsSome f (trim_start (drop (chunk_end (c ∷ cs) max) (c ∷ cs))) max m shorter))
      (λ _. (_, refl))
  where
    shorter : length (trim_start (drop (chunk_end (c ∷ cs) max) (c ∷ cs))) < f
    shorter = omega (
      arith,
      length-trim_start (drop (chunk_end (c ∷ cs) max) (c ∷ cs)),
      length-drop_suc (chunk_end (c ∷ cs) max) c cs (chunk_end_positive c cs max m),
    )

-- With room for three bytes at least, a message of any length is split within the fuel.
pub split_message-IsSome : (text : Utf16) (max : ℕ) → 3 ≤ max → IsSome (split_message text max)
unfolding split_message
split_message-IsSome text max h =
    if_cases IsSome (leb (byte_length text) max) (λ _. (_, refl))
      (λ _. filtered-IsSome _ (chunks_of-IsSome (suc (length text)) text max h (omega arith)))
  where
    filtered-IsSome : (o : Option (List Utf16)) → IsSome o → IsSome (filtered o)
    filtered-IsSome o (cs, e) = (nonempty cs, rw e refl)
