-- ===== src/Memberships/Rejoin.antt =====
-- A membership that is revoked while src/nostr/memberships.ts waits for the channel's metadata.
use autogent.Prelude.{
  ◌≡◌, refl, sym, ◌∙◌, inl, inr, String, true, false, Option, none, some, List, [], ◌∷◌, arith,
  Bool-cases, ◌==◌, eq_iff,
}
use mathlib.Core.Path.{subst}
use autogent.JsMap
use autogent.JsMap.{JsMap}
use autogent.JsMap.Keys.{has-set, has-remove_none}
use autogent.Nostr.{NostrEvent, channel_id_of}
use autogent.Memberships.{
  MembershipManager, is_allowed, subscribe, join_channel, or_unknown, leave,
  on_membership_notification, on_granted, fetch_metadata, notify_about, kind_membership_added,
  kind_membership_removed,
}
use autogent.ChannelMetadata.{ChannelInfo, unknown_channel, parse_channel_metadata}
use autogent.Memberships.Metadata.{first_info, is_about, fetch_metadata-first}

about : {id : String} (info : ChannelInfo) → is_about id (some info) ≡ true → info.channel_id ≡ id
unfolding is_about
about {id} info t = ground (arith, eq_iff info.channel_id id, t)

first_info-about :
    (id : String) (events : List NostrEvent) (info : ChannelInfo)
    → first_info id events ≡ some info
    → info.channel_id ≡ id
unfolding first_info
first_info-about id [] info h = cc
first_info-about id (event ∷ events) info h =
    elim (Bool-cases (is_about id (parse_channel_metadata event))) [
      | inl t ↦
          let e : parse_channel_metadata event ≡ some info = ground (arith, t, h) in
          about info (subst (λ o. is_about id o ≡ true) e t)
      | inr f ↦ first_info-about id events info (ground (arith, f, h))
    ]

-- The channel that a granted membership joins.
unfoldable pub granted_channel : String → List NostrEvent → ChannelInfo
granted_channel id answer = or_unknown id (JsMap.get id (fetch_metadata (id ∷ []) answer))

or_unknown-id :
    (id : String) (o : Option ChannelInfo)
    → ((info : ChannelInfo) → o ≡ some info → info.channel_id ≡ id)
    → (or_unknown id o).channel_id ≡ id
unfolding or_unknown unknown_channel
or_unknown-id id none f = refl
or_unknown-id id (some info) f = f info refl

granted_channel-id :
    (id : String) (answer : List NostrEvent) → (granted_channel id answer).channel_id ≡ id
unfolding granted_channel
granted_channel-id id answer =
    or_unknown-id id (JsMap.get id (fetch_metadata (id ∷ []) answer))
      (λ info e. first_info-about id answer info (sym (fetch_metadata-first id id [] answer) ∙ e))

join_channel-subscribed :
    (m : MembershipManager) (info : ChannelInfo)
    → m.stopped ≡ false
    → is_allowed info.channel_id m ≡ true
    → info.archived ≡ false
    → JsMap.has info.channel_id (join_channel info m).subscriptions ≡ true
unfolding join_channel subscribe
join_channel-subscribed m info running a live =
    rw (a, running, live)
      (elim (Bool-cases (JsMap.has info.channel_id m.subscriptions)) [
        | inl old ↦ rw old old
        | inr new ↦ rw new (has-set info.channel_id _ m.subscriptions)
      ])

-- A grant that finds no subscription asks the relay.
granted-asks :
    (id : String) (event : NostrEvent) (m : MembershipManager)
    → (id == "") ≡ false
    → event.kind ≡ kind_membership_added
    → JsMap.has id m.subscriptions ≡ false
    → notify_about (some id) event m ≡ (some id, m)
unfolding notify_about
granted-asks id event m nonempty k none_yet = rw (nonempty, k, none_yet) refl

revoked-leaves :
    (id : String) (event : NostrEvent) (m : MembershipManager)
    → (id == "") ≡ false
    → event.kind ≡ kind_membership_removed
    → notify_about (some id) event m ≡ (none, leave id m)
unfolding notify_about
revoked-leaves id event m nonempty k = rw (nonempty, k) refl

leave-kept :
    (id : String) (m : MembershipManager)
    → JsMap.has id m.subscriptions ≡ false
    → (JsMap.has id (leave id m).subscriptions ≡ false)
      × (((leave id m).stopped ≡ m.stopped) × (is_allowed id (leave id m) ≡ is_allowed id m))
unfolding leave is_allowed
leave-kept id m h = rw h (elim (Bool-cases (JsMap.has id m.channels)) [
  | inl t ↦ rw t (has-remove_none id id m.subscriptions h, (refl, refl))
  | inr f ↦ rw f (h, (refl, refl))
])

-- A membership is granted while the agent is not in the channel and runs, and is revoked before the
-- relay has answered the query for the channel's metadata: the revocation finds nothing to leave, and
-- then the answer, unless it says that the channel is archived, subscribes to the channel all the same.
pub revoked_rejoins :
    (id : String) (grant revocation : NostrEvent) (answer : List NostrEvent) (m : MembershipManager)
    → (id == "") ≡ false
    → (channel_id_of grant ≡ some id) × (grant.kind ≡ kind_membership_added)
    → (channel_id_of revocation ≡ some id) × (revocation.kind ≡ kind_membership_removed)
    → m.stopped ≡ false
    → is_allowed id m ≡ true
    → JsMap.has id m.subscriptions ≡ false
    → (granted_channel id answer).archived ≡ false
    → let (query, waiting) = on_membership_notification grant m in
      let (no_query, revoked) = on_membership_notification revocation waiting in
      (query ≡ some id)
      × ((JsMap.has id revoked.subscriptions ≡ false)
          × (JsMap.has id (on_granted id answer revoked).subscriptions ≡ true))
unfolding on_membership_notification on_granted granted_channel
revoked_rejoins id grant revocation answer m nonempty (grant_id, added) (revoked_id, removed)
      running allowed none_yet live =
    let kept = leave-kept id m none_yet in
    let info = granted_channel id answer in
    let same = granted_channel-id id answer in
    rw
      (
        grant_id,
        granted-asks id grant m nonempty added none_yet,
        revoked_id,
        revoked-leaves id revocation m nonempty removed,
      )
      (
        refl,
        (
          kept.0,
          subst (λ i. JsMap.has i (join_channel info (leave id m)).subscriptions ≡ true) same
              (join_channel-subscribed (leave id m) info (kept.1.0 ∙ running)
                (subst (λ i. is_allowed i (leave id m) ≡ true) (sym same) (kept.1.1 ∙ allowed))
                live),
        ),
      )
