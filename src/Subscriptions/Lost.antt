-- ===== src/Subscriptions/Lost.antt =====
-- An event on which its consumer threw, in src/nostr/subscriptions.ts.
use autogent.Prelude.{
  ℕ, suc, ◌+◌, ◌<◌, ◌≡◌, ◌≢◌, refl, ◌⊎◌, inl, inr, String, true, Option, none, some, List, [], ◌∷◌,
  length, arith, Bool-cases, eq_refl,
}
use autogent.JsMap
use autogent.Nostr.{NostrEvent}
use autogent.Subscriptions.{
  SeenEventIds, has, rotate, admit, SubscriptionRegistry, SubscriptionRecord, deliver, deliver_to,
  hand_over, not_delivered,
}
use autogent.Turn.{includes}

unfoldable pub deliver_all :
    List (String × NostrEvent) → SubscriptionRegistry → SubscriptionRegistry
deliver_all [] g = g
deliver_all ((sub, e) ∷ es) g = deliver_all es (deliver sub e g).1

-- The set holds `id`, and still does after `k` more ids.
abbrev Holds : String → ℕ → SeenEventIds → Type 0
Holds id k s =
    (k < s.rotate_at)
    × ((includes id s.current ≡ true)
        ⊎ ((includes id s.previous ≡ true) × (length s.current + k < s.rotate_at)))

Holds-has : (id : String) (k : ℕ) (s : SeenEventIds) → Holds id k s → has id s ≡ true
unfolding has
Holds-has id k s h = ground (arith, h.1)

Holds-weaken : (id : String) (k : ℕ) (s : SeenEventIds) → Holds id (suc k) s → Holds id k s
Holds-weaken id k s h = ground (arith, h.0, h.1)

Holds-admit :
    (id x : String) (k : ℕ) (s : SeenEventIds) → Holds id (suc k) s → Holds id k (admit x s).1
unfolding admit rotate includes
Holds-admit id x k s h = ground (arith, h.0, h.1)

admit-Holds :
    (id : String) (k : ℕ) (s : SeenEventIds)
    → k < s.rotate_at
    → (admit id s).0 ≡ true
    → Holds id k (admit id s).1
unfolding admit rotate includes
admit-Holds id k s h e = ground (arith, h, e, eq_refl id)

hand_over-seen :
    (r : SubscriptionRecord) (e : NostrEvent) (g : SubscriptionRegistry)
    → (hand_over r e g).1.seen ≡ g.seen
unfolding hand_over
hand_over-seen r e g = ground arith

hand_over-called :
    (r : SubscriptionRecord) (e : NostrEvent) (g : SubscriptionRegistry)
    → (hand_over r e g).0 ≢ not_delivered
unfolding hand_over
hand_over-called r e g h = ground (arith, h)

-- An event either stays out of the set or is admitted to it.
deliver_to-seen :
    (o : Option SubscriptionRecord) (e : NostrEvent) (g : SubscriptionRegistry)
    → ((deliver_to o e g).1.seen ≡ g.seen) ⊎ ((deliver_to o e g).1.seen ≡ (admit e.id g.seen).1)
unfolding deliver_to
deliver_to-seen none e g = inl refl
deliver_to-seen (some r) e g = elim (Bool-cases (admit e.id g.seen).0) [
  | inl new ↦ rw new (inr (hand_over-seen r e (record g { seen = (admit e.id g.seen).1 })))
  | inr old ↦ rw old (inl refl)
]

deliver_to-called :
    (o : Option SubscriptionRecord) (e : NostrEvent) (g : SubscriptionRegistry)
    → (deliver_to o e g).0 ≢ not_delivered
    → ((admit e.id g.seen).0 ≡ true) × ((deliver_to o e g).1.seen ≡ (admit e.id g.seen).1)
unfolding deliver_to
deliver_to-called none e g h = absurd (h refl)
deliver_to-called (some r) e g h = elim (Bool-cases (admit e.id g.seen).0) [
  | inl new ↦ (new, rw new (hand_over-seen r e (record g { seen = (admit e.id g.seen).1 })))
  | inr old ↦ absurd (h (rw old refl))
]

deliver_to-refused :
    (o : Option SubscriptionRecord) (e : NostrEvent) (g : SubscriptionRegistry)
    → has e.id g.seen ≡ true
    → (deliver_to o e g).0 ≡ not_delivered
unfolding deliver_to admit
deliver_to-refused none e g h = refl
deliver_to-refused (some r) e g h = rw h refl

deliver_all-Holds :
    (id : String) (es : List (String × NostrEvent)) (g : SubscriptionRegistry)
    → Holds id (length es) g.seen
    → Holds id 0 (deliver_all es g).seen
unfolding deliver_all deliver
deliver_all-Holds id [] g h = h
deliver_all-Holds id ((sub, e) ∷ es) g h =
    let o = JsMap.get sub g.records in
    let rest = deliver_all-Holds id es (deliver_to o e g).1 in
    elim (deliver_to-seen o e g) [
      | inl same ↦ rest (rw same (Holds-weaken id (length es) g.seen h))
      | inr new ↦ rest (rw new (Holds-admit id e.id (length es) g.seen h))
    ]

-- An event that the consumer of a subscription was called with, whether it took the event or threw,
-- is not handed to a consumer again, under any subscription, while fewer events than one
-- generation of the dedup set holds were delivered in between.
pub deliver_once :
    (sub other : String) (e : NostrEvent) (es : List (String × NostrEvent))
    (g : SubscriptionRegistry)
    → length es < g.seen.rotate_at
    → (deliver sub e g).0 ≢ not_delivered
    → (deliver other e (deliver_all es (deliver sub e g).1)).0 ≡ not_delivered
unfolding deliver
deliver_once sub other e es g few called =
    let (new, seen) = deliver_to-called (JsMap.get sub g.records) e g called in
    let after = deliver_all es (deliver sub e g).1 in
    deliver_to-refused (JsMap.get other after.records) e after (
      Holds-has e.id 0 after.seen (
        deliver_all-Holds e.id es (deliver sub e g).1
          (rw seen (admit-Holds e.id (length es) g.seen few new))))
