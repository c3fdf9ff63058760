-- ===== src/Output/Router/Again.antt =====
-- `record` of src/runtime/output-router.ts after a crash: a message that was recorded is not signed
-- again.
use autogent.Prelude.{
  ℕ, suc, ◌≡◌, refl, sym, ap, ◌∙◌, String, true, false, List, [], ◌∷◌, ◌++◌, arith, Bool-cases, inl,
  inr, eq_iff, ◌==◌, if◌then◌else◌,
}
use mathlib.Core.Path.{subst}
use autogent.Exec.{err_ne_ok, continue, pure, Result, ok, err}
use autogent.Utf16.{Utf16, is_blank}
use autogent.Nostr.{NostrEvent}
use autogent.State.Rows.{Db, IntentRow, signed}
use autogent.State.Table.{any, update}
use autogent.State.Table.Laws.{any-append, any-update}
use autogent.State.Outbox.{is_intent, put_intent, put_signed, set_intent_state, with_intent_state}
use autogent.Turn.{TurnContext}
use autogent.LogicalId.{logical_id}
use autogent.Output.Router.{
  OutputConfig, Draft, RecordedOutput, OutputState, apply_oversize_policy, bump_ordinal, count_of,
  intent_of, store_signed, put_intent_in, record_chunk, record_chunks, record_output,
}

abbrev Known : String → Db → Type 0
Known id db = any (is_intent id) db.output_intents ≡ true

-- The intents after one more was stored and signed.
abbrev signed_rows : String → List IntentRow → IntentRow → List IntentRow
signed_rows i rows new =
    update (is_intent i) (with_intent_state signed)
      (update (is_intent i) (with_intent_state signed) (rows ++ new ∷ []))

any-signed :
    (id i : String) (rows : List IntentRow) (new : IntentRow)
    → any (is_intent id) (signed_rows i rows new)
      ≡ (if any (is_intent id) rows then true else any (is_intent id) (new ∷ []))
any-signed id i rows new =
    any-update (is_intent id) (is_intent i) (with_intent_state signed) _ (λ _. refl)
    ∙ any-update (is_intent id) (is_intent i) (with_intent_state signed) _ (λ _. refl)
    ∙ any-append (is_intent id) rows (new ∷ [])

any-signed_kept :
    (id i : String) (rows : List IntentRow) (new : IntentRow)
    → any (is_intent id) rows ≡ true
    → any (is_intent id) (signed_rows i rows new) ≡ true
any-signed_kept id i rows new k = any-signed id i rows new ∙ ground (arith, k)

any-signed_self :
    (i : String) (rows : List IntentRow) (new : IntentRow)
    → new.intent.logical_id ≡ i
    → any (is_intent i) (signed_rows i rows new) ≡ true
unfolding any
any-signed_self i rows new e =
    any-signed i i rows new ∙ ground (arith, e, eq_iff new.intent.logical_id i)

module _ (build : Draft → NostrEvent) (now : ℕ) (c : TurnContext) (message : String) where
  -- A chunk whose intent is there.
  record_chunk-Known :
      (index : ℕ) (body : Utf16) (s : OutputState)
      → Known (logical_id c.turn_id message index) s.db
      → record_chunk build now c message index body s ≡ (ok [], bump_ordinal c.turn_id s)
  unfolding record_chunk put_intent_in put_intent store_signed bump_ordinal
  record_chunk-Known index body s k = rw k refl

  -- A chunk keeps every intent that is there.
  record_chunk_keeps :
      (index : ℕ) (body : Utf16) (s : OutputState) (id : String)
      → Known id s.db
      → Known id (record_chunk build now c message index body s).1.db
  unfolding record_chunk put_intent_in put_intent store_signed bump_ordinal set_intent_state
      put_signed any
  record_chunk_keeps index body s id k =
      elim (Bool-cases (any (is_intent (logical_id c.turn_id message index)) s.db.output_intents)) [
        | inl a ↦ rw a k
        | inr a ↦ elim (Bool-cases (any (λ t. t.turn_id == c.turn_id) s.db.turns)) [
          | inl t ↦
              rw (a, t)
                (any-signed_kept id (logical_id c.turn_id message index) s.db.output_intents
                  (record {
                    intent =
                        intent_of build now c message index body (count_of c.turn_id s.ordinals);
                    created_at = now;
                  })
                  k)
          | inr t ↦ rw (a, t) k
        ]
      ]

  -- A chunk that is recorded has its intent.
  record_chunk_knows :
      (index : ℕ) (body : Utf16) (s : OutputState) (r : List RecordedOutput)
      → (record_chunk build now c message index body s).0 ≡ ok r
      → Known
          (logical_id c.turn_id message index)
          (record_chunk build now c message index body s).1.db
  unfolding record_chunk put_intent_in put_intent store_signed bump_ordinal set_intent_state
      put_signed any
  record_chunk_knows index body s r k =
      elim (Bool-cases (any (is_intent (logical_id c.turn_id message index)) s.db.output_intents)) [
        | inl a ↦ rw a a
        | inr a ↦ elim (Bool-cases (any (λ t. t.turn_id == c.turn_id) s.db.turns)) [
          | inl t ↦
              rw (a, t)
                (any-signed_self (logical_id c.turn_id message index) s.db.output_intents _ refl)
          | inr t ↦ absurd (err_ne_ok (rw (a, t) at k))
        ]
      ]

  abbrev Stored : ℕ → List Utf16 → Db → Type 0
  Stored index [] db = Unit
  Stored index (b ∷ bs) db =
      Known (logical_id c.turn_id message index) db × Stored (suc index) bs db

  -- Nothing is recorded, and nothing changes but the ordinals.
  abbrev IsSilent : OutputState → Result (List RecordedOutput) × OutputState → Type 0
  IsSilent s p = (p.0 ≡ ok []) × (p.1.db ≡ s.db) × (p.1.notified ≡ s.notified)

  record_chunks-Known :
      (index : ℕ) (bodies : List Utf16) (s : OutputState)
      → Stored index bodies s.db
      → IsSilent s (record_chunks build now c message index bodies s)
  unfolding record_chunks bump_ordinal
  record_chunks-Known index [] s h = (refl, refl, refl)
  record_chunks-Known index (b ∷ bs) s h =
      let more = record_chunks-Known (suc index) bs (bump_ordinal c.turn_id s) h.1 in
      rw (record_chunk-Known index b s h.0) (ground (arith, more))

  Stored-keeps :
      (index first : ℕ) (bodies : List Utf16) (body : Utf16) (s : OutputState)
      → Stored first bodies s.db
      → Stored first bodies (record_chunk build now c message index body s).1.db
  Stored-keeps index first [] body s h = tt
  Stored-keeps index first (b ∷ bs) body s h =
      (record_chunk_keeps index body s _ h.0, Stored-keeps index (suc first) bs body s h.1)

  abbrev Errs : Type 0
  Errs = Result (List RecordedOutput) × OutputState

  record_chunks_keeps :
      (index : ℕ) (bodies : List Utf16) (s : OutputState) (id : String)
      → Known id s.db
      → Known id (record_chunks build now c message index bodies s).1.db
  unfolding record_chunks
  record_chunks_keeps index [] s id k = k
  record_chunks_keeps index (b ∷ bs) s id k =
      after (record_chunk build now c message index b s) refl (record_chunk_keeps index b s id k)
        (λ t h. record_chunks_keeps (suc index) bs t id h)
    where
      ended :
          (r : List RecordedOutput) (q : Errs)
          → Known id q.1.db
          → Known id (continue q.0 (λ rest. pure (r ++ rest)) q.1).1.db
      ended r (ok x, t) h = h
      ended r (err x, t) h = h

      after :
          (p : Errs)
          → record_chunk build now c message index b s ≡ p
          → Known id p.1.db
          → ((t : OutputState)
              → Known id t.db
              → Known id (record_chunks build now c message (suc index) bs t).1.db)
          → Known id (record_chunks build now c message index (b ∷ bs) s).1.db
      after (err x, t) e h more = rw e h
      after (ok r, t) e h more =
          rw e (ended r (record_chunks build now c message (suc index) bs t) (more t h))

  record_chunks_stores :
      (index : ℕ) (bodies : List Utf16) (s : OutputState) (r : List RecordedOutput)
      → (record_chunks build now c message index bodies s).0 ≡ ok r
      → Stored index bodies (record_chunks build now c message index bodies s).1.db
  unfolding record_chunks
  record_chunks_stores index [] s r k = tt
  record_chunks_stores index (b ∷ bs) s r k =
      after (record_chunk build now c message index b s) refl (record_chunk_knows index b s)
        (λ t x. record_chunks_stores (suc index) bs t x) k
    where
      id : String
      id = logical_id c.turn_id message index

      ended :
          (r₁ : List RecordedOutput) (q : Errs)
          → Known id q.1.db
          → ((r₂ : List RecordedOutput) → q.0 ≡ ok r₂ → Stored (suc index) bs q.1.db)
          → (continue q.0 (λ rest. pure (r₁ ++ rest)) q.1).0 ≡ ok r
          → Stored index (b ∷ bs) (continue q.0 (λ rest. pure (r₁ ++ rest)) q.1).1.db
      ended r₁ (ok x, t) h more k = (h, more x refl)
      ended r₁ (err x, t) h more k = absurd (err_ne_ok k)

      after :
          (p : Errs)
          → record_chunk build now c message index b s ≡ p
          → ((x : List RecordedOutput)
              → (record_chunk build now c message index b s).0 ≡ ok x
              → Known id (record_chunk build now c message index b s).1.db)
          → ((t : OutputState) (x : List RecordedOutput)
              → (record_chunks build now c message (suc index) bs t).0 ≡ ok x
              → Stored (suc index) bs (record_chunks build now c message (suc index) bs t).1.db)
          → (record_chunks build now c message index (b ∷ bs) s).0 ≡ ok r
          → Stored index (b ∷ bs) (record_chunks build now c message index (b ∷ bs) s).1.db
      after (err x, t) e known more k = absurd (err_ne_ok (rw e at k))
      after (ok r₁, t) e known more k = rw e (
          ended r₁ (record_chunks build now c message (suc index) bs t)
            (record_chunks_keeps (suc index) bs t id
              (subst (λ p. Known id p.1.db) e (known r₁ (ap (λ p. p.0) e))))
            (more t) (rw e at k))

module _ (build build₂ : Draft → NostrEvent) (now now₂ : ℕ) (config : OutputConfig)
    (c : TurnContext) (message : String) (text : Utf16) where
  IsSilent-output :
      (s : OutputState) (p : Result (List RecordedOutput) × OutputState)
      → record_chunks build₂ now₂ c message 0 (apply_oversize_policy config text) s ≡ p
      → is_blank text ≡ false
      → IsSilent build₂ now₂ c message s p
      → IsSilent build₂ now₂ c message s (record_output build₂ now₂ config c message text s)
  unfolding record_output
  IsSilent-output s (ok [], t) e b h = rw (b, e) h
  IsSilent-output s (ok (r ∷ rs), t) e b h = absurd (contradiction h.0)
    where
      contradiction : ◌≡◌ {A = Result (List RecordedOutput)} (ok (r ∷ rs)) (ok []) → ⊥
      contradiction q = cc
  IsSilent-output s (err x, t) e b h = absurd (err_ne_ok h.0)

  output_stores :
      (s : OutputState) (r : List RecordedOutput) (p : Result (List RecordedOutput) × OutputState)
      → record_chunks build now c message 0 (apply_oversize_policy config text) s ≡ p
      → is_blank text ≡ false
      → (record_output build now config c message text s).0 ≡ ok r
      → (p.0 ≡ ok r) × (p.1.db ≡ (record_output build now config c message text s).1.db)
  unfolding record_output
  output_stores s r (ok [], t) e b k = rw (b, e) (rw (b, e) at k, refl)
  output_stores s r (ok (x ∷ xs), t) e b k = rw (b, e) (rw (b, e) at k, refl)
  output_stores s r (err x, t) e b k = absurd (err_ne_ok (rw (b, e) at k))

  blank_output :
      (s : OutputState)
      → is_blank text ≡ true
      → IsSilent build₂ now₂ c message s (record_output build₂ now₂ config c message text s)
  unfolding record_output
  blank_output s b = rw b (refl, refl, refl)

  -- A message that was recorded once is recorded again, at any time, with any signer, and whatever the
  -- ordinals are: no event is signed or returned, the tables stay as they are and the publisher is
  -- not woken.
  pub record_output_again :
      (s later : OutputState) (r : List RecordedOutput)
      → (record_output build now config c message text s).0 ≡ ok r
      → later.db ≡ (record_output build now config c message text s).1.db
      → let again = record_output build₂ now₂ config c message text later in
        (again.0 ≡ ok []) × (again.1.db ≡ later.db) × (again.1.notified ≡ later.notified)
  record_output_again s later r k same = elim (Bool-cases (is_blank text)) [
    | inl b ↦ blank_output later b
    | inr b ↦
        let (done, db) = output_stores s r _ refl b k in
        IsSilent-output later _ refl b (
          record_chunks-Known build₂ now₂ c message 0 (apply_oversize_policy config text) later (
            subst (Stored build now c message 0 (apply_oversize_policy config text)) (db ∙ sym same)
              (record_chunks_stores build now c message 0 (apply_oversize_policy config text) s r
                done)))
  ]
