-- ===== src/Publisher/Gaps.antt =====
-- What one drain of src/nostr/publisher.ts sends, and what it leaves of the outbox.
use autogent.Prelude.{
  true≢false, ℕ, suc, ◌≡◌, ◌≢◌, refl, ◌∙◌, ap, sym, String, true, false, List, [], ◌∷◌, ◌++◌,
  Bool-cases, arith, some, inl, inr, append-nil, append_assoc, eq_iff, length, All, ◌+◌,
}
use mathlib.Core.Path.{subst}
use mathlib.Core.List.{Perm}
use mathlib.Core.List.Perm
use autogent.Nostr.{NostrEvent}
use autogent.State.Table.{any}
use autogent.State.Rows.{OutboxRecord, Db}
use autogent.State.Outbox.{due, due_publishes}
use autogent.Publisher.{
  OutboxPublisherOptions, Drain, Progress, turn_of, is_blocked, send, drain_from, drain_once,
  order_for_publish,
}
use autogent.Publisher.Order.{order_for_publish-perm, due-perm, due_records}

-- What was sent is `sent` and then nothing of `turn`.
abbrev pub Continues : String → List OutboxRecord → Progress → Type 0
Continues turn sent p =
    (extra : List OutboxRecord) × (p.sent ≡ sent ++ extra) × All (λ r. turn_of r ≢ turn) extra

module _ (o : OutboxPublisherOptions) (d : Drain) where
  send_sent : (n : ℕ) (r : OutboxRecord) (p : Progress) → (send o d n r p).sent ≡ p.sent ++ r ∷ []
  unfolding send
  send_sent n r p = elim (Bool-cases (d.publish n r.signed_event).ok) [
    | inl t ↦ rw t refl
    | inr t ↦ rw t refl
  ]

  send_blocked :
      (n : ℕ) (r : OutboxRecord) (p : Progress) (turn : String)
      → is_blocked turn p ≡ true
      → is_blocked turn (send o d n r p) ≡ true
  unfolding send any
  send_blocked n r p turn b = elim (Bool-cases (d.publish n r.signed_event).ok) [
    | inl t ↦ rw t b
    | inr t ↦ rw t (ground arith)
  ]

  send_blocks :
      (n : ℕ) (r : OutboxRecord) (p : Progress)
      → (d.publish n r.signed_event).ok ≡ false
      → is_blocked (turn_of r) (send o d n r p) ≡ true
  unfolding send any
  send_blocks n r p f = rw f (ground (arith, eq_iff (turn_of r) (turn_of r)))

  send_accepted :
      (n : ℕ) (r : OutboxRecord) (p : Progress)
      → (d.publish n r.signed_event).ok ≡ true
      → ((send o d n r p).blocked_turns ≡ p.blocked_turns)
        × ((send o d n r p).published ≡ suc p.published)
  unfolding send
  send_accepted n r p t = rw t (refl, refl)

  drain_stopped :
      (n : ℕ) (rs : List OutboxRecord) (p : Progress)
      → d.stopped n ≡ true
      → drain_from o d n rs p ≡ p
  unfolding drain_from
  drain_stopped n [] p s = refl
  drain_stopped n (r ∷ rs) p s = rw s refl

  drain_skips :
      (n : ℕ) (r : OutboxRecord) (rs : List OutboxRecord) (p : Progress)
      → d.stopped n ≡ false
      → is_blocked (turn_of r) p ≡ true
      → drain_from o d n (r ∷ rs) p ≡ drain_from o d (suc n) rs p
  unfolding drain_from
  drain_skips n r rs p s b = rw (s, b) refl

  drain_sends :
      (n : ℕ) (r : OutboxRecord) (rs : List OutboxRecord) (p : Progress)
      → d.stopped n ≡ false
      → is_blocked (turn_of r) p ≡ false
      → drain_from o d n (r ∷ rs) p ≡ drain_from o d (suc n) rs (send o d n r p)
  unfolding drain_from
  drain_sends n r rs p s b = rw (s, b) refl

  -- A turn that is blocked stays blocked, and nothing of it is sent.
  skips_blocked :
      (n : ℕ) (rs : List OutboxRecord) (p : Progress) (turn : String)
      → is_blocked turn p ≡ true
      → Continues turn p.sent (drain_from o d n rs p)
  unfolding drain_from
  skips_blocked n [] p turn b = ([], sym (append-nil p.sent), tt)
  skips_blocked n (r ∷ rs) p turn b = elim (Bool-cases (d.stopped n)) [
    | inl s ↦ rw (drain_stopped n (r ∷ rs) p s) ([], sym (append-nil p.sent), tt)
    | inr s ↦ elim (Bool-cases (is_blocked (turn_of r) p)) [
      | inl k ↦ rw (drain_skips n r rs p s k) (skips_blocked (suc n) rs p turn b)
      | inr k ↦ rw (drain_sends n r rs p s k) (
          after_send k (skips_blocked (suc n) rs (send o d n r p) turn (send_blocked n r p turn b)))
    ]
  ]
    where
      after_send :
          is_blocked (turn_of r) p ≡ false
          → Continues turn (send o d n r p).sent (drain_from o d (suc n) rs (send o d n r p))
          → Continues turn p.sent (drain_from o d (suc n) rs (send o d n r p))
      after_send k (extra, e, all) = (
        r ∷ extra,
        e ∙ ap (λ l. l ++ extra) (send_sent n r p) ∙ append_assoc p.sent (r ∷ []) extra,
        ((λ q. different q), all),
      )
        where
          different : turn_of r ≡ turn → ⊥
          different q = absurd (true≢false (sym b ∙ ap (λ t. is_blocked t p) (sym q) ∙ k))

  -- When the relay does not accept a record that the drain sends (it is not stopped there, and the
  -- record's turn is not blocked), the rest of the drain, whatever records it goes through and
  -- whatever the relay answers, sends nothing of that turn.
  pub gap_not_filled :
      (n : ℕ) (r : OutboxRecord) (rs : List OutboxRecord) (p : Progress)
      → d.stopped n ≡ false
      → is_blocked (turn_of r) p ≡ false
      → (d.publish n r.signed_event).ok ≡ false
      → Continues (turn_of r) (p.sent ++ r ∷ []) (drain_from o d n (r ∷ rs) p)
  gap_not_filled n r rs p go free refused = rw (drain_sends n r rs p go free) (
      subst (λ l. Continues (turn_of r) l (drain_from o d (suc n) rs (send o d n r p)))
        (send_sent n r p)
        (skips_blocked (suc n) rs (send o d n r p) (turn_of r) (send_blocks n r p refused)))

  free_of_none : (p : Progress) (turn : String) → p.blocked_turns ≡ [] → is_blocked turn p ≡ false
  unfolding any
  free_of_none p turn e = rw e refl

  sends_all :
      (n : ℕ) (rs : List OutboxRecord) (p : Progress)
      → ((k : ℕ) → d.stopped k ≡ false)
      → ((k : ℕ) (e : NostrEvent) → (d.publish k e).ok ≡ true)
      → p.blocked_turns ≡ []
      → ((drain_from o d n rs p).sent ≡ p.sent ++ rs)
        × ((drain_from o d n rs p).published ≡ p.published + length rs)
  unfolding drain_from
  sends_all n [] p go accepts free = (sym (append-nil p.sent), omega arith)
  sends_all n (r ∷ rs) p go accepts free =
      let (blocked, count) = send_accepted n r p (accepts n r.signed_event) in
      let (sent, published) = sends_all (suc n) rs (send o d n r p) go accepts (blocked ∙ free) in
      rw (drain_sends n r rs p (go n) (free_of_none p (turn_of r) free)) (
        sent ∙ ap (λ l. l ++ rs) (send_sent n r p) ∙ append_assoc p.sent (r ∷ []) rs,
        omega (arith, published, count),
      )

  -- A drain that is not stopped, with a relay that accepts every event, sends the signed event of
  -- every record that is due, each one once, and counts them all as published.
  pub drain_once_complete :
      (db : Db)
      → ((k : ℕ) → d.stopped k ≡ false)
      → ((k : ℕ) (e : NostrEvent) → (d.publish k e).ok ≡ true)
      → Perm (drain_once o d db).sent (due_records (some d.now) db)
        × ((drain_once o d db).published ≡ length (drain_once o d db).sent)
  unfolding drain_once due_publishes
  drain_once_complete db go accepts =
      let (sent, published) =
        sends_all 0 (order_for_publish (due (some d.now) db))
          (record { db = db; blocked_turns = []; published = 0; sent = [] }) go accepts refl in
      (
        rw sent
            (Perm.trans (order_for_publish-perm (due (some d.now) db)) (due-perm (some d.now) db)),
        ground (arith, published, ap length sent),
      )
