-- ===== src/Memberships/Streams.antt =====
-- The subscriptions of src/nostr/memberships.ts, whatever the relay sends and in whatever order
-- its answers come.
use autogent.Prelude.{
  ◌≡◌, refl, sym, ◌∙◌, ap, String, true, ◌&&◌, ◌||◌, not, Option, none, some, List, [], ◌∷◌, ◌==◌,
  eqb, if_cases, eq_refl,
}
use autogent.JsMap
use autogent.JsMap.{JsMap}
use autogent.JsMap.Keys.{has-set, has-remove_other, remove-Unique, All-remove, All-removed, All-has}
use autogent.Nostr.{NostrEvent, NostrFilter, channel_id_of}
use autogent.Memberships.{
  SubscribeMode, MembershipManager, create, is_allowed, channel_subscription_id, join_channel,
  join_all, or_unknown, leave, on_membership_notification, on_granted, on_discovered,
  discover_channel_ids, fetch_metadata, close_streams, stop, resolve_type, note_fetched,
  notify_about, kind_membership_added, kind_membership_removed,
}
use autogent.ChannelMetadata.{ChannelInfo, ChannelType}
use autogent.Memberships.Invariant.{
  streams_of, IsWanted, IsAllowed, IsInStep, streams_of-remove, learn-IsInStep, subscribe-IsInStep,
  proceeds, remove_empty,
}

-- What can happen to the manager. An answer can come at any time, and to any query.
pub data Step : Type 0 where
  discovered : List NostrEvent → List NostrEvent → Step
  notified : NostrEvent → Step
  granted : String → List NostrEvent → Step
  resolved : String → List NostrEvent → Step
  stopping : Step

unfoldable pub step : Step → MembershipManager → MembershipManager
step (discovered members metadata) m = on_discovered members metadata m
step (notified event) m = (on_membership_notification event m).1
step (granted id answer) m = on_granted id answer m
step (resolved id answer) m = (resolve_type id answer m).1
step stopping m = stop m

unfoldable pub run : List Step → MembershipManager → MembershipManager
run [] m = m
run (s ∷ ss) m = run ss (step s m)

join_channel-IsInStep :
    (m : MembershipManager) (info : ChannelInfo) → IsInStep m → IsInStep (join_channel info m)
unfolding join_channel is_allowed
join_channel-IsInStep m info s =
    let id = info.channel_id in
    let known = record m { channels = JsMap.set id info m.channels } in
    if_cases IsInStep (m.stopped || not (is_allowed id m)) (λ _. s)
      (λ go.
        let learned = learn-IsInStep m id info (proceeds m.stopped (is_allowed id m) go).1 s in
        if_cases IsInStep info.archived (λ _. learned)
          (λ _.
            subscribe-IsInStep known info (proceeds m.stopped (is_allowed id m) go).1
              (has-set id info m.channels) (proceeds m.stopped (is_allowed id m) go).0 learned))

join_all-IsInStep :
    (ids : List String) (found : JsMap ChannelInfo) (m : MembershipManager)
    → IsInStep m
    → IsInStep (join_all ids found m)
unfolding join_all
join_all-IsInStep [] found m s = s
join_all-IsInStep (id ∷ ids) found m s =
    let info = or_unknown id (JsMap.get id found) in
    join_all-IsInStep ids found (join_channel info m) (join_channel-IsInStep m info s)

leave-IsInStep : (id : String) (m : MembershipManager) → IsInStep m → IsInStep (leave id m)
unfolding leave is_allowed
leave-IsInStep id m s =
    if_cases IsInStep (JsMap.has id m.subscriptions || JsMap.has id m.channels)
      (λ _. record {
        relay =
            ap (JsMap.remove (channel_subscription_id id)) s.relay
            ∙ sym (streams_of-remove id m.subscriptions);
        unique = remove-Unique id m.subscriptions s.unique;
        wanted =
            All-remove (IsWanted m) _ id m.subscriptions s.unique
              (λ j v ne w. (w.0, (has-remove_other j id m.channels ne ∙ w.1.0, w.1.1))) s.wanted;
        allowed = All-removed (IsAllowed m) id m.channels s.allowed;
        closed = λ stopped. ap (JsMap.remove id) (s.closed stopped) ∙ remove_empty id;
      })
      (λ _. s)

notify_about-IsInStep :
    (about : Option String) (event : NostrEvent) (m : MembershipManager)
    → IsInStep m
    → IsInStep (notify_about about event m).1
unfolding notify_about
notify_about-IsInStep none event m s = s
notify_about-IsInStep (some id) event m s =
    if_cases (λ (r : Option String × MembershipManager). IsInStep r.1) (id == "") (λ _. s)
      (λ _.
        if_cases (λ (r : Option String × MembershipManager). IsInStep r.1)
          (eqb event.kind kind_membership_removed) (λ _. leave-IsInStep id m s)
          (λ _.
            if_cases (λ (r : Option String × MembershipManager). IsInStep r.1)
              (eqb event.kind kind_membership_added && not (JsMap.has id m.subscriptions)) (λ _. s)
              (λ _. s)))

note_fetched-IsInStep :
    (id : String) (o : Option ChannelInfo) (m : MembershipManager)
    → IsInStep m
    → IsInStep (note_fetched id o m).1
unfolding note_fetched
note_fetched-IsInStep id none m s = s
note_fetched-IsInStep id (some info) m s =
    if_cases (λ (r : ChannelType × MembershipManager). IsInStep r.1) (JsMap.has id m.channels)
      (λ here.
        learn-IsInStep m id info (All-has (λ j. is_allowed j m ≡ true) id m.channels s.allowed here)
          s)
      (λ _. s)

close_streams-all : (s : JsMap NostrFilter) → close_streams s (streams_of s) ≡ []
unfolding close_streams streams_of JsMap.remove
close_streams-all [] = refl
close_streams-all ((l, w) ∷ s) = rw (eq_refl (channel_subscription_id l)) (close_streams-all s)

stop-IsInStep : (m : MembershipManager) → IsInStep m → IsInStep (stop m)
unfolding stop is_allowed streams_of
stop-IsInStep m s =
    if_cases IsInStep m.stopped (λ _. s)
      (λ _. record {
        relay = ap (close_streams m.subscriptions) s.relay ∙ close_streams-all m.subscriptions;
        unique = tt;
        wanted = tt;
        allowed = s.allowed;
        closed = λ _. refl;
      })

step-IsInStep : (c : Step) (m : MembershipManager) → IsInStep m → IsInStep (step c m)
unfolding step on_discovered on_granted on_membership_notification resolve_type
step-IsInStep (discovered members metadata) m s =
    join_all-IsInStep (discover_channel_ids members m)
      (fetch_metadata (discover_channel_ids members m) metadata) m s
step-IsInStep (notified event) m s = notify_about-IsInStep (channel_id_of event) event m s
step-IsInStep (granted id answer) m s =
    join_channel-IsInStep m (or_unknown id (JsMap.get id (fetch_metadata (id ∷ []) answer))) s
step-IsInStep (resolved id answer) m s =
    note_fetched-IsInStep id (JsMap.get id (fetch_metadata (id ∷ []) answer)) m s
step-IsInStep stopping m s = stop-IsInStep m s

run_from-IsInStep : (cs : List Step) (m : MembershipManager) → IsInStep m → IsInStep (run cs m)
unfolding run
run_from-IsInStep [] m s = s
run_from-IsInStep (c ∷ cs) m s = run_from-IsInStep cs (step c m) (step-IsInStep c m s)

-- Whatever the relay sends, and whenever its answers come: the streams that are open at the relay
-- are those of the manager's subscriptions, none twice, each is for a known channel that the
-- allowlist allows and carries that channel's filter, and once the manager was stopped none is open.
pub run-IsInStep :
    (agent_pubkey : String) (mode : SubscribeMode) (allowlist : List String) (cs : List Step)
    → IsInStep (run cs (create agent_pubkey mode allowlist))
unfolding create streams_of
run-IsInStep agent_pubkey mode allowlist cs =
    run_from-IsInStep cs (create agent_pubkey mode allowlist)
      (record { relay = refl; unique = tt; wanted = tt; allowed = tt; closed = λ _. refl })
