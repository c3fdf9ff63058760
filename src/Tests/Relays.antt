-- ===== src/Tests/Relays.antt =====
-- The theorems on the relay's subscriptions and memberships at concrete runs.
use autogent.Prelude.{
  inl, inr, Option, Bool-cases, eq_iff, sym, ◌∙◌, ap, ◌==◌, ℕ, ◌*◌, ◌≤◌, ◌<◌, ◌≡◌, ◌≢◌, refl, ◌⊎◌,
  String, true, false, none, some, List, [], ◌∷◌, ◌++◌, arith,
}
use autogent.Prelude.Int.{pos}
use autogent.JsMap
use autogent.Nostr.{NostrTag, NostrEvent, NostrFilter, channel_id_of}
use autogent.Memberships.{
  all_messages, mentions, MembershipManager, create, on_membership_notification, on_granted,
  kind_membership_added, kind_membership_removed, is_allowed, or_unknown, fetch_metadata,
}
use autogent.ChannelMetadata.{kind_channel_metadata, parse_channel_metadata}
use autogent.Memberships.Streams.{
  Step, discovered, notified, granted, resolved, stopping, run, run-IsInStep,
}
use autogent.Memberships.Invariant.{IsInStep}
use autogent.Memberships.Rejoin.{granted_channel, revoked_rejoins}
use autogent.Subscriptions
use autogent.Subscriptions.{
  SubscriptionRecord, SeenEventIds, create_seen, size, has, rotate, admit, deliver_to, hand_over,
  delivery_failed, SubscribeOptions, SubscriptionRegistry, create_record, since, filters_for,
  not_delivered, deliver,
}
use autogent.Subscriptions.Window.{Spaced, admit_all, admit_all-Spaced}
use autogent.Subscriptions.Floor.{IsKeyed, AsksFrom, failed_requested_again}
use autogent.Subscriptions.Lost.{deliver_all, deliver_once}
use autogent.Turn.{includes}
use autogent.Tests.Samples.{event}

abbrev ids : List String
ids = "a" ∷ "b" ∷ "a" ∷ "c" ∷ "a" ∷ "d" ∷ "b" ∷ []

admit_all-Spaced_example :
    let (s, h) = admit_all ids (create_seen 2) [] in
    Spaced 2 h
    × (((older : List String) × ((h ≡ (s.current ++ s.previous) ++ older)
            × ((older ≡ []) ⊎ (2 ≤ size s))))
        × (size s < 2 * 2))
admit_all-Spaced_example = admit_all-Spaced 2 ids (omega arith)

abbrev wide : NostrFilter
wide = record {
  ids = none;
  authors = none;
  kinds = some (9 ∷ []);
  since = some (pos 7);
  until = none;
  limit = none;
  search = none;
  tags = [];
}

abbrev options : SubscribeOptions
options = record { id = "ch-1"; filters = wide ∷ []; on_event_throws = λ _. true }

abbrev subscribed : SubscriptionRegistry
subscribed = Subscriptions.add options (Subscriptions.create (pos 50) 2)

consumer_threw : (deliver "ch-1" (event "first" []) subscribed).0 ≡ delivery_failed
unfolding deliver deliver_to hand_over admit has rotate includes Subscriptions.add
    Subscriptions.create create_seen create_record JsMap.get JsMap.set
consumer_threw = refl

subscribed-IsKeyed : IsKeyed subscribed
unfolding Subscriptions.add Subscriptions.create create_record JsMap.get JsMap.set
subscribed-IsKeyed k r e = elim (Bool-cases ("ch-1" == k)) [
  | inl t ↦ ap (λ x. x.id) (sym (same (rw t at e))) ∙ (eq_iff "ch-1" k).0 t
  | inr f ↦ absurd (missing (rw f at e))
]
  where
    same :
        {x y : SubscriptionRecord} → ◌≡◌ {A = Option SubscriptionRecord} (some x) (some y) → x ≡ y
    same q = cc

    missing : ◌≡◌ {A = Option SubscriptionRecord} none (some r) → ⊥
    missing q = cc

failed_requested_again_example :
    (r : SubscriptionRecord) × (JsMap.get "ch-1"
        (deliver_all
          (("ch-1", event "second" []) ∷ [])
          (deliver "ch-1" (event "first" []) subscribed).1).records
      ≡ some r)
    × AsksFrom (pos 50) (event "first" []).created_at r
failed_requested_again_example =
    failed_requested_again (pos 50) "ch-1" (event "first" []) (("ch-1", event "second" []) ∷ [])
      subscribed subscribed-IsKeyed consumer_threw

called : (deliver "ch-1" (event "first" []) subscribed).0 ≢ not_delivered
called h = cc (h, consumer_threw)

deliver_once_example :
    (deliver "ch-1" (event "first" []) (
      deliver_all
        (("ch-1", event "second" []) ∷ [])
        (deliver "ch-1" (event "first" []) subscribed).1)).0
    ≡ not_delivered
unfolding Subscriptions.add Subscriptions.create create_seen
deliver_once_example =
    deliver_once "ch-1" "ch-1" (event "first" []) (("ch-1", event "second" []) ∷ []) subscribed
      (omega arith) called

abbrev of_kind : ℕ → List NostrTag → NostrEvent
of_kind kind tags = record {
  unsigned = record { pubkey = "relay"; created_at = 100; kind = kind; tags = tags; content = [] };
  id = "id";
  sig = "sig";
}

abbrev about_channel : List NostrTag
about_channel = ("h" ∷ "channel" ∷ []) ∷ []

abbrev metadata : NostrEvent
metadata = of_kind kind_channel_metadata (("d" ∷ "channel" ∷ []) ∷ [])

abbrev steps : List Step
steps =
    discovered (of_kind 39002 (("d" ∷ "channel" ∷ []) ∷ []) ∷ []) (metadata ∷ [])
    ∷ notified (of_kind kind_membership_removed about_channel)
    ∷ granted "channel" (metadata ∷ [])
    ∷ resolved "other" []
    ∷ stopping
    ∷ []

run-IsInStep_example : IsInStep (run steps (create "agent" all_messages ("channel" ∷ [])))
run-IsInStep_example = run-IsInStep "agent" all_messages ("channel" ∷ []) steps

abbrev manager : MembershipManager
manager = create "agent" mentions []

revoked_rejoins_example :
    let (query, waiting) =
      on_membership_notification (of_kind kind_membership_added about_channel) manager in
    let (no_query, revoked) =
      on_membership_notification (of_kind kind_membership_removed about_channel) waiting in
    (query ≡ some "channel")
    × ((JsMap.has "channel" revoked.subscriptions ≡ false)
        × (JsMap.has "channel" (on_granted "channel" (metadata ∷ []) revoked).subscriptions ≡ true))
unfolding channel_id_of create is_allowed JsMap.has granted_channel or_unknown JsMap.get
    fetch_metadata parse_channel_metadata JsMap.set
revoked_rejoins_example =
    revoked_rejoins "channel" (of_kind kind_membership_added about_channel)
      (of_kind kind_membership_removed about_channel) (metadata ∷ []) manager refl (refl, refl)
      (refl, refl) refl refl refl refl
