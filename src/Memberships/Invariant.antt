-- ===== src/Memberships/Invariant.antt =====
-- The invariant of the manager of src/nostr/memberships.ts, and a subscription's part of it.
use autogent.Prelude.{
  ◌≡◌, refl, sym, ◌∙◌, ap, inl, inr, String, Bool, true, false, ◌||◌, not, [], ◌∷◌, arith,
  Bool-cases, ◌==◌, eq_iff, eq_refl, ne_of_eqb, All,
}
use mathlib.Core.Path.{subst}
use Prim.Native.String.{◌++◌ as join}
use text.Mathlib.TextLemmas.{append_cancel_left}
use autogent.JsMap
use autogent.JsMap.{JsMap}
use autogent.JsMap.Keys.{Unique, has-set_kept, set-Unique, All-set, All-entries}
use autogent.JsMap.Laws.{eqs_false}
use autogent.Nostr.{NostrFilter}
use autogent.Memberships.{
  MembershipManager, is_allowed, channel_filter, channel_subscription_id, subscribe,
}
use autogent.ChannelMetadata.{ChannelInfo}

-- The relay's side of the manager's subscriptions.
unfoldable pub streams_of : JsMap NostrFilter → JsMap NostrFilter
streams_of [] = []
streams_of ((id, filter) ∷ rest) = (channel_subscription_id id, filter) ∷ streams_of rest

-- A subscription is to an allowed channel that the manager knows, with that channel's filter.
abbrev pub IsWanted : MembershipManager → String × NostrFilter → Type 0
IsWanted m (id, filter) =
    (is_allowed id m ≡ true)
    × ((JsMap.has id m.channels ≡ true) × (filter ≡ channel_filter id m.agent_pubkey m.mode))

abbrev pub IsAllowed : MembershipManager → String × ChannelInfo → Type 0
IsAllowed m (id, info) = is_allowed id m ≡ true

pub record IsInStep (m : MembershipManager) : Type 0 where
  pub relay : m.open_streams ≡ streams_of m.subscriptions
  pub unique : Unique m.subscriptions
  pub wanted : All (IsWanted m) m.subscriptions
  pub allowed : All (IsAllowed m) m.channels
  pub closed : m.stopped ≡ true → m.subscriptions ≡ []

subscription_ids_eq :
    (a b : String) → (channel_subscription_id a == channel_subscription_id b) ≡ (a == b)
unfolding channel_subscription_id
subscription_ids_eq a b = elim (Bool-cases (a == b)) [
  | inl t ↦ rw t (
      subst (λ x. (join "ch-" a == join "ch-" x) ≡ true) (ground (arith, eq_iff a b, t))
        (eq_refl (join "ch-" a)))
  | inr f ↦ rw f (
      eqs_false (join "ch-" a) (join "ch-" b)
        (λ e. ne_of_eqb a b f (append_cancel_left "ch-" a b e)))
]

streams_of-set :
    (id : String) (f : NostrFilter) (s : JsMap NostrFilter)
    → streams_of (JsMap.set id f s) ≡ JsMap.set (channel_subscription_id id) f (streams_of s)
unfolding streams_of JsMap.set
streams_of-set id f [] = refl
streams_of-set id f ((l, w) ∷ s) = ground (arith, subscription_ids_eq l id, streams_of-set id f s)

pub streams_of-remove :
    (id : String) (s : JsMap NostrFilter)
    → streams_of (JsMap.remove id s) ≡ JsMap.remove (channel_subscription_id id) (streams_of s)
unfolding streams_of JsMap.remove
streams_of-remove id [] = refl
streams_of-remove id ((l, w) ∷ s) = ground (arith, subscription_ids_eq l id, streams_of-remove id s)

abbrev IsKnown : JsMap ChannelInfo → JsMap ChannelInfo → Type 0
IsKnown c d = (id : String) → JsMap.has id c ≡ true → JsMap.has id d ≡ true

open_stopped : (b : Bool) → b ≡ false → b ≡ true → ⊥
open_stopped b f t = cc

-- Learning more about channels keeps the subscriptions wanted.
IsWanted-learn :
    (m : MembershipManager) (id : String) (info : ChannelInfo)
    → All (IsWanted m) m.subscriptions
    → All (IsWanted (record m { channels = JsMap.set id info m.channels })) m.subscriptions
unfolding is_allowed
IsWanted-learn m id info h =
    All-entries (IsWanted m) (IsWanted (record m { channels = JsMap.set id info m.channels }))
      m.subscriptions (λ j v w. (w.0, (has-set_kept j id info m.channels w.1.0, w.1.1))) h

pub learn-IsInStep :
    (m : MembershipManager) (id : String) (info : ChannelInfo)
    → is_allowed id m ≡ true
    → IsInStep m
    → IsInStep (record m { channels = JsMap.set id info m.channels })
unfolding is_allowed
learn-IsInStep m id info a s = record {
  relay = s.relay;
  unique = s.unique;
  wanted = IsWanted-learn m id info s.wanted;
  allowed = All-set (IsAllowed m) id info m.channels a s.allowed;
  closed = s.closed;
}

pub subscribe-IsInStep :
    (m : MembershipManager) (info : ChannelInfo)
    → is_allowed info.channel_id m ≡ true
    → JsMap.has info.channel_id m.channels ≡ true
    → m.stopped ≡ false
    → IsInStep m
    → IsInStep (subscribe info m)
unfolding subscribe is_allowed
subscribe-IsInStep m info a known running s =
    elim (Bool-cases (JsMap.has info.channel_id m.subscriptions)) [
      | inl old ↦ rw old s
      | inr new ↦
          let id = info.channel_id in
          let f = channel_filter id m.agent_pubkey m.mode in
          rw new (record {
            relay =
                ap (JsMap.set (channel_subscription_id id) f) s.relay
                ∙ sym (streams_of-set id f m.subscriptions);
            unique = set-Unique id f m.subscriptions s.unique;
            wanted = All-set (IsWanted m) id f m.subscriptions (a, (known, refl)) s.wanted;
            allowed = s.allowed;
            closed = λ stopped. absurd (open_stopped m.stopped running stopped);
          })
    ]

pub proceeds : (a b : Bool) → (a || not b) ≡ false → (a ≡ false) × (b ≡ true)
proceeds false true h = (refl, refl)
proceeds false false h = (refl, sym h)
proceeds true b h = absurd (open_stopped true h refl)

pub remove_empty : (id : String) → JsMap.remove {V = NostrFilter} id [] ≡ []
unfolding JsMap.remove
remove_empty id = refl
