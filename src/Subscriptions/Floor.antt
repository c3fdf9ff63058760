-- ===== src/Subscriptions/Floor.antt =====
-- What src/nostr/subscriptions.ts asks the relay for again after its consumer threw.
use autogent.Prelude.{
  ℕ, ◌≤◌, ◌≡◌, refl, sym, ◌∙◌, ap, inl, inr, String, Option, none, some, List, [], ◌∷◌, map, arith,
  All, Bool-cases, ◌==◌, eq_iff, ne_of_eqb, if_cases,
}
use mathlib.Core.Path.{subst}
use autogent.JsMap
use autogent.JsMap.Laws.{get-set, get-set_other}
use autogent.Prelude.Int.{ℤ, pos, ◌≤ℤ◌}
use autogent.Nostr.{NostrEvent, NostrFilter}
use autogent.Subscriptions.{
  SubscriptionRecord, SubscriptionRegistry, Delivery, delivery_failed, not_delivered, since,
  filters_for, note_delivered, note_dropped, with_since, base_of, rewound, min_ℤ, earlier, admit,
  deliver, deliver_to, hand_over,
}
use autogent.Subscriptions.Lost.{deliver_all}

abbrev AtMost : Option ℕ → ℕ → Type 0
AtMost none t = ⊥
AtMost (some d) t = d ≤ t

earlier-AtMost : (d : Option ℕ) (t : ℕ) → AtMost (earlier d t) t
unfolding earlier
earlier-AtMost none t = omega arith
earlier-AtMost (some d) t = ground arith

earlier_keeps : (d : Option ℕ) (s t : ℕ) → AtMost d t → AtMost (earlier d s) t
unfolding earlier
earlier_keeps none s t h = absurd h
earlier_keeps (some d) s t h = ground (arith, h)

-- The records of a registry stand under their own ids.
abbrev pub IsKeyed : SubscriptionRegistry → Type 0
IsKeyed g = (k : String) (r : SubscriptionRecord) → JsMap.get k g.records ≡ some r → r.id ≡ k

-- The subscription is owed what was created at `t`.
abbrev Owes : String → ℕ → SubscriptionRegistry → Type 0
Owes sub t g =
    (r : SubscriptionRecord) × (JsMap.get sub g.records ≡ some r) × AtMost r.dropped_since t

-- What the delivery of one event leaves of the records.
abbrev Changes : SubscriptionRecord → SubscriptionRegistry → SubscriptionRegistry → Type 0
Changes r g h =
    (s : SubscriptionRecord) × (s.id ≡ r.id)
    × (h.records ≡ JsMap.set r.id s g.records)
    × ((t : ℕ) → AtMost r.dropped_since t → AtMost s.dropped_since t)

hand_over-Changes :
    (r : SubscriptionRecord) (e : NostrEvent) (g : SubscriptionRegistry)
    → Changes r g (hand_over r e g).1
unfolding hand_over note_delivered note_dropped
hand_over-Changes r e g = elim (Bool-cases (r.on_event_throws e)) [
  | inl threw ↦ rw threw (
    note_dropped e.created_at (note_delivered e r),
    refl,
    refl,
    (λ t h. earlier_keeps r.dropped_since e.created_at t h),
  )
  | inr took ↦ rw took (note_delivered e r, refl, refl, (λ t h. h))
]

some_eq : {r s : SubscriptionRecord} → ◌≡◌ {A = Option SubscriptionRecord} (some r) (some s) → r ≡ s
some_eq e = cc

Changes-IsKeyed :
    (r : SubscriptionRecord) (g h : SubscriptionRegistry) → Changes r g h → IsKeyed g → IsKeyed h
Changes-IsKeyed r g h (s, same, records, keeps) keyed k x e = elim (Bool-cases (k == r.id)) [
  | inl here ↦
      let at : k ≡ r.id = (eq_iff k r.id).0 here in
      let new : s ≡ x = some_eq (
        sym (get-set r.id s g.records)
        ∙ (ap (λ m. JsMap.get r.id m) (sym records)
            ∙ (ap (λ i. JsMap.get i h.records) (sym at) ∙ e))) in
      ap (λ y. y.id) (sym new) ∙ (same ∙ sym at)
  | inr away ↦ keyed k x (
      sym (get-set_other k r.id s g.records (ne_of_eqb k r.id away))
      ∙ (ap (λ m. JsMap.get k m) (sym records) ∙ e))
]

Changes-Owes :
    (r : SubscriptionRecord) (g h : SubscriptionRegistry) (sub : String) (t : ℕ)
    → Changes r g h
    → JsMap.get r.id g.records ≡ some r
    → Owes sub t g
    → Owes sub t h
Changes-Owes r g h sub t (s, same, records, keeps) own (x, found, low) =
    elim (Bool-cases (sub == r.id)) [
      | inl here ↦
          let at : sub ≡ r.id = (eq_iff sub r.id).0 here in
          let it : x ≡ r = some_eq (sym found ∙ (ap (λ i. JsMap.get i g.records) at ∙ own)) in
          (
            s,
            ap (λ m. JsMap.get sub m) records
                ∙ (ap (λ i. JsMap.get i (JsMap.set r.id s g.records)) at
                    ∙ get-set r.id s g.records),
            keeps t (subst (λ y. AtMost y.dropped_since t) it low),
          )
      | inr away ↦ (
        x,
        ap (λ m. JsMap.get sub m) records
            ∙ (get-set_other sub r.id s g.records (ne_of_eqb sub r.id away) ∙ found),
        low,
      )
    ]

-- A property of the records that every delivery to a record under its id keeps is kept.
deliver_to_keeps :
    (P : SubscriptionRegistry → Type 0)
    → ((g h : SubscriptionRegistry) → g.records ≡ h.records → P g → P h)
    → (o : Option SubscriptionRecord) (sub : String) (e : NostrEvent) (g : SubscriptionRegistry)
    → JsMap.get sub g.records ≡ o
    → IsKeyed g
    → ((r : SubscriptionRecord) (f h : SubscriptionRegistry)
        → f.records ≡ g.records
        → JsMap.get r.id g.records ≡ some r
        → Changes r f h
        → P f
        → P h)
    → P g
    → P (deliver_to o e g).1
unfolding deliver_to
deliver_to_keeps P same none sub e g found keyed by p = p
deliver_to_keeps P same (some r) sub e g found keyed by p =
    let seen = record g { seen = (admit e.id g.seen).1 } in
    if_cases (λ (d : Delivery × SubscriptionRegistry). P d.1) (admit e.id g.seen).0
      (λ _.
        by r seen (hand_over r e seen).1 refl
          (ap (λ i. JsMap.get i g.records) (keyed sub r found) ∙ found) (hand_over-Changes r e seen)
          (same g seen refl p))
      (λ _. p)

deliver-IsKeyed :
    (sub : String) (e : NostrEvent) (g : SubscriptionRegistry)
    → IsKeyed g
    → IsKeyed (deliver sub e g).1
unfolding deliver
deliver-IsKeyed sub e g keyed =
    deliver_to_keeps IsKeyed (λ f h q k i r found. k i r (ap (λ m. JsMap.get i m) q ∙ found))
      (JsMap.get sub g.records) sub e g refl keyed (λ r f h q own c k. Changes-IsKeyed r f h c k)
      keyed

deliver-Owes :
    (sub : String) (t : ℕ) (to : String) (e : NostrEvent) (g : SubscriptionRegistry)
    → IsKeyed g
    → Owes sub t g
    → Owes sub t (deliver to e g).1
unfolding deliver
deliver-Owes sub t to e g keyed =
    deliver_to_keeps (Owes sub t)
      (λ f h q (r, found, low). (r, ap (λ m. JsMap.get sub m) (sym q) ∙ found, low))
      (JsMap.get to g.records) to e g refl keyed
      (λ r f h q own c k. Changes-Owes r f h sub t c (ap (λ m. JsMap.get r.id m) q ∙ own) k)

deliver_all-Owes :
    (sub : String) (t : ℕ) (es : List (String × NostrEvent)) (g : SubscriptionRegistry)
    → IsKeyed g
    → Owes sub t g
    → Owes sub t (deliver_all es g)
unfolding deliver_all
deliver_all-Owes sub t [] g keyed o = o
deliver_all-Owes sub t ((to, e) ∷ es) g keyed o =
    deliver_all-Owes sub t es (deliver to e g).1 (deliver-IsKeyed to e g keyed)
      (deliver-Owes sub t to e g keyed o)

-- The delivery that failed.
hand_over-Owes :
    (r : SubscriptionRecord) (e : NostrEvent) (g : SubscriptionRegistry)
    → (hand_over r e g).0 ≡ delivery_failed
    → Owes r.id e.created_at (hand_over r e g).1
unfolding hand_over note_delivered note_dropped
hand_over-Owes r e g failed = elim (Bool-cases (r.on_event_throws e)) [
  | inl threw ↦ rw threw (
    note_dropped e.created_at (note_delivered e r),
    get-set r.id (note_dropped e.created_at (note_delivered e r)) g.records,
    earlier-AtMost r.dropped_since e.created_at,
  )
  | inr took ↦ absurd (contradiction (rw took at failed))
]
  where
    contradiction : ◌≡◌ {A = Delivery} Delivery.delivered delivery_failed → ⊥
    contradiction q = cc

deliver_to-Owes :
    (o : Option SubscriptionRecord) (sub : String) (e : NostrEvent) (g : SubscriptionRegistry)
    → JsMap.get sub g.records ≡ o
    → IsKeyed g
    → (deliver_to o e g).0 ≡ delivery_failed
    → Owes sub e.created_at (deliver_to o e g).1
unfolding deliver_to
deliver_to-Owes none sub e g found keyed failed = absurd (contradiction failed)
  where
    contradiction : ◌≡◌ {A = Delivery} not_delivered delivery_failed → ⊥
    contradiction q = cc
deliver_to-Owes (some r) sub e g found keyed failed =
    let seen = record g { seen = (admit e.id g.seen).1 } in
    if_cases
      (λ (d : Delivery × SubscriptionRegistry). d.0 ≡ delivery_failed → Owes sub e.created_at d.1)
      (admit e.id g.seen).0
      (λ _ f.
        subst (λ i. Owes i e.created_at (hand_over r e seen).1) (keyed sub r found)
          (hand_over-Owes r e seen f))
      (λ _ f. absurd (contradiction f)) failed
  where
    contradiction : ◌≡◌ {A = Delivery} not_delivered delivery_failed → ⊥
    contradiction q = cc

-- Every filter of the next request of a record starts no later than `t`.
abbrev pub AsksFrom : ℤ → ℕ → SubscriptionRecord → Type 0
AsksFrom w t r = All (λ filter. (s : ℤ) × (filter.since ≡ some s) × (s ≤ℤ pos t)) (filters_for w r)

since-AtMost :
    (w : ℤ) (t : ℕ) (r : SubscriptionRecord) → AtMost r.dropped_since t → since w r ≤ℤ pos t
unfolding since base_of rewound min_ℤ
since-AtMost w t r h = ground (arith, h)

filters-AskFrom :
    (s : ℤ) (t : ℕ) (filters : List NostrFilter)
    → s ≤ℤ pos t
    → All
        (λ filter. (x : ℤ) × (filter.since ≡ some x) × (x ≤ℤ pos t))
        (map (with_since (some s)) filters)
unfolding with_since
filters-AskFrom s t [] h = tt
filters-AskFrom s t (f ∷ filters) h = ((s, refl, h), filters-AskFrom s t filters h)

-- Once the consumer of a subscription threw on an event that was delivered to it, and after any further
-- deliveries to it and to others: the subscription is still there, and every filter of its next
-- request starts no later than the event, so that the relay sends it again.
pub failed_requested_again :
    (w : ℤ) (sub : String) (e : NostrEvent) (es : List (String × NostrEvent))
    (g : SubscriptionRegistry)
    → IsKeyed g
    → (deliver sub e g).0 ≡ delivery_failed
    → (r : SubscriptionRecord) × (JsMap.get sub (deliver_all es (deliver sub e g).1).records
        ≡ some r)
      × AsksFrom w e.created_at r
unfolding deliver filters_for
failed_requested_again w sub e es g keyed failed =
    let (r, found, low) =
      deliver_all-Owes sub e.created_at es (deliver sub e g).1 (deliver-IsKeyed sub e g keyed)
        (deliver_to-Owes (JsMap.get sub g.records) sub e g refl keyed failed) in
    (
      r,
      found,
      filters-AskFrom (since w r) e.created_at r.filters (since-AtMost w e.created_at r low),
    )
