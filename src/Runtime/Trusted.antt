-- ===== src/Runtime/Trusted.antt =====
-- The invariant of src/runtime/app-runtime.ts on the way of an event to an actor, and the steps up to the
-- wait for the gate.
use autogent.Prelude.{
  ℕ, ◌≡◌, ◌≢◌, refl, ◌∙◌, ap, sym, String, Bool, true, false, true≢false, false≢true, not, Option,
  none, some, List, [], ◌∷◌, ◌++◌, if_cases, ◌==◌, eq_iff, All, Bool-cases, inl, inr, arith,
}
use mathlib.Core.Path.{subst}
use mathlib.Core.List.{Memᴰ}
use autogent.JsMap
use autogent.JsMap.{JsMap}
use autogent.Utf16.{Utf16}
use autogent.Nostr.{NostrEvent, channel_id_of}
use autogent.ChannelMetadata.{ChannelInfo, dm}
use autogent.Gate.{AuthorGateOptions, ProfileSnapshot, begin_evaluate, is_restricted}
use autogent.Gate.Trust.{
  Policy, Admitted, Means, Means-of, IsGateOf, begin_evaluate-Means, IsBacked, cached_backed,
}
use autogent.Gate.Admission.{Vouches}
use autogent.Control.{ControlCommand, cancel, shutdown, rotate, parse_control_command}
use autogent.Registry
use autogent.Registry.{
  ActorCall, submit_call, cancel_call, rotate_call, close_call, ChannelRegistry, ChannelDescriptor,
  tell, tell_each, forget,
}
use autogent.State.Rows.{completed}
use autogent.State.Table.Laws.{All-append}
use autogent.State.Inbox.{insert_if_absent, set_disposition}
use autogent.Runtime.{
  AppRuntime, Waiting, Step, received, gated, policy_changed, on_inbound_message, is_of,
  store_event, inbox_record, on_inserted, on_control_command, begin_stop, on_channel_added,
  sync_profile, gate_type, is_stopping,
}

pub unnot : (b : Bool) → not b ≡ false → b ≡ true
unnot true h = refl
unnot false h = sym h

-- The policy that a step leaves.
unfoldable pub policy_by : Step → Policy → Policy
policy_by (policy_changed mode authors) p = (mode, authors)
policy_by _ p = p

unfoldable pub policy_after : List Step → Policy → Policy
policy_after [] p = p
policy_after (s ∷ ss) p = policy_after ss (policy_by s p)

is_of_sound : (o : Option String) (id : String) → is_of o id ≡ true → o ≡ some id
unfolding is_of
is_of_sound none id h = absurd (false≢true h)
is_of_sound (some tag) id h = ap some ((eq_iff tag id).0 (ground (arith, h)))

-- The channel is known not to be a DM.
abbrev pub IsPublic : ChannelInfo → Type 0
IsPublic channel = (channel.metadata_known ≡ true) × (channel.type ≢ dm)

gate_type_sound :
    (channel : ChannelInfo) → is_restricted (gate_type channel) ≡ false → IsPublic channel
unfolding gate_type
gate_type_sound channel h = elim (Bool-cases channel.metadata_known) [
  | inl k ↦ (k, (λ e. true≢false (rw (k, e) at h)))
  | inr f ↦ absurd (true≢false (rw f at h))
]

module _ (verify : NostrEvent → Bool) (lower : Utf16 → Utf16)
    (schnorr : String → String → String → Bool) (options : AuthorGateOptions) (owner : String)
    (all : List Step) where
  -- A lookup gave a profile of the author that vouches for him.
  abbrev pub IsAttested : String → Type 0
  IsAttested author =
      (q : ProfileSnapshot) × (now : ℕ) × (n : ℕ) × Memᴰ (gated now (some (some q)) n) all
      × Vouches schnorr q author owner

  -- The event came in by its own channel with a valid signature, at a moment with a policy.
  abbrev pub Came : NostrEvent → ChannelInfo → (Policy → Type 0) → Type 0
  Came event channel P =
      (before : List Step) × (now : ℕ) × (after : List Step) × (all
        ≡ before ++ received now event channel ∷ after)
      × (verify event ≡ true)
      × (channel_id_of event ≡ some channel.channel_id)
      × P (policy_after before (options.respond_to, options.allowed_authors))

  -- It came in when the policy was to let its author in.
  abbrev pub IsVouched : ActorCall → Type 0
  IsVouched (submit_call event) =
      (channel : ChannelInfo) × Came event channel (λ p.
        Admitted (IsAttested event.pubkey) (IsPublic channel) options.agent_pubkey
          options.sibling_agents owner p event.pubkey)
  IsVouched _ = Unit

  abbrev pub AllVouched : ChannelRegistry → Type 0
  AllVouched g = All (λ c. IsVouched c.1) g.calls

  -- What a handler that waits has of the gate.
  abbrev pub Stands : Waiting → Type 0
  Stands (event, channel, asked) = Came event channel (λ p.
      Means (IsAttested event.pubkey) (IsPublic channel) options.agent_pubkey options.sibling_agents
        owner p event.pubkey asked)

  pub record IsTrusted (p : Policy) (r : AppRuntime) : Type 0 where
    pub gate : IsGateOf options p r.gate
    pub backed : IsBacked IsAttested r.gate.siblings
    pub waiting : All Stands r.waiting
    pub calls : AllVouched r.registry

  pub tell-AllVouched :
      (o : Option ℕ) (call : ActorCall) (g : ChannelRegistry)
      → IsVouched call
      → AllVouched g
      → AllVouched (tell o call g)
  unfolding tell
  tell-AllVouched none call g v h = h
  tell-AllVouched (some i) call g v h =
      All-append (λ c. IsVouched c.1) g.calls ((i, call) ∷ []) h (v, tt)

  pub forget-AllVouched :
      (o : Option ℕ) (id : String) (g : ChannelRegistry) → AllVouched g → AllVouched (forget o id g)
  unfolding forget tell
  forget-AllVouched none id g h = h
  forget-AllVouched (some i) id g h =
      All-append (λ c. IsVouched c.1) g.calls ((i, close_call) ∷ []) h (tt, tt)

  closes : (m : JsMap ℕ) → All (λ c. IsVouched c.1) (tell_each close_call m)
  unfolding tell_each
  closes [] = tt
  closes ((l, i) ∷ m) = (tt, closes m)

  closing-AllVouched :
      (g : ChannelRegistry) → AllVouched g → AllVouched (Registry.begin_close_all g)
  unfolding Registry.begin_close_all
  closing-AllVouched g h =
      All-append (λ c. IsVouched c.1) g.calls (tell_each close_call g.actors) h (closes g.actors)

  added-AllVouched :
      (d : ChannelDescriptor) (g : ChannelRegistry) → AllVouched g → AllVouched (Registry.add d g)
  unfolding Registry.add
  added-AllVouched d g h = if_cases AllVouched (JsMap.has d.channel_id g.actors) (λ _. h) (λ _. h)

  -- The registry alone has changed.
  pub moved :
      (p : Policy) (r : AppRuntime) (s : AppRuntime)
      → r.gate ≡ s.gate
      → r.waiting ≡ s.waiting
      → AllVouched s.registry
      → IsTrusted p r
      → IsTrusted p s
  moved p r s g w v t = record {
    gate = subst (IsGateOf options p) g t.gate;
    backed = subst (λ k. IsBacked IsAttested k.siblings) g t.backed;
    waiting = subst (All Stands) w t.waiting;
    calls = v;
  }

  pub begin_stop-IsTrusted :
      (p : Policy) (reason : String) (r : AppRuntime)
      → IsTrusted p r
      → IsTrusted p (begin_stop reason r)
  unfolding begin_stop
  begin_stop-IsTrusted p reason r t =
      if_cases (IsTrusted p) (is_stopping r.phase) (λ _. t)
        (λ _. moved p r _ refl refl (closing-AllVouched r.registry t.calls) t)

  control-IsTrusted :
      (p : Policy) (now : ℕ) (c : ControlCommand) (channel : String) (r : AppRuntime)
      → IsTrusted p r
      → IsTrusted p (on_control_command now c channel r)
  unfolding on_control_command Registry.cancel Registry.rotate
  control-IsTrusted p now cancel channel r t =
      moved p r _ refl refl
        (tell-AllVouched (JsMap.get channel r.registry.actors) (cancel_call "owner_cancel")
          r.registry tt t.calls)
        t
  control-IsTrusted p now rotate channel r t =
      moved p r _ refl refl
        (tell-AllVouched (JsMap.get channel r.registry.actors) rotate_call r.registry tt t.calls) t
  control-IsTrusted p now shutdown channel r t =
      begin_stop-IsTrusted p "owner_shutdown" (record r { last_activity = now })
        (moved p r _ refl refl t.calls t)

  pub channel_added-IsTrusted :
      (p : Policy) (channel : ChannelInfo) (r : AppRuntime)
      → IsTrusted p r
      → IsTrusted p (on_channel_added channel r)
  unfolding on_channel_added sync_profile
  channel_added-IsTrusted p channel r t =
      if_cases (IsTrusted p) (Registry.has channel.channel_id r.registry)
        (λ _. moved p r _ refl refl (added-AllVouched _ r.registry t.calls) t)
        (λ _. moved p r _ refl refl (added-AllVouched _ r.registry t.calls) t)

  -- An event comes in after `before`.
  module _ (own : options.owner_pubkey ≡ some owner) (before : List Step) (now : ℕ)
      (event : NostrEvent) (channel : ChannelInfo) (after : List Step)
      (split : all ≡ before ++ received now event channel ∷ after) where
    abbrev Now : Policy
    Now = policy_after before (options.respond_to, options.allowed_authors)

    asked_now :
        (r : AppRuntime)
        → IsTrusted Now r
        → Means
            (IsAttested event.pubkey)
            (IsPublic channel)
            options.agent_pubkey
            options.sibling_agents
            owner
            Now
            event.pubkey
            (begin_evaluate event.pubkey (gate_type channel) r.gate)
    asked_now r t = Means-of _ _ options Now r.gate owner event.pubkey _ t.gate (
        begin_evaluate-Means (IsAttested event.pubkey) (IsPublic channel) owner event.pubkey
          (gate_type channel) r.gate (t.gate.owned ∙ own)
          (cached_backed IsAttested event.pubkey r.gate.siblings t.backed)
          (gate_type_sound channel))

    on_inserted-IsTrusted :
        (c : Option ControlCommand) (r : AppRuntime)
        → verify event ≡ true
        → channel_id_of event ≡ some channel.channel_id
        → IsTrusted Now r
        → IsTrusted Now (on_inserted verify lower schnorr c now event channel r)
    unfolding on_inserted
    on_inserted-IsTrusted none r signed own_channel t = record {
      gate = t.gate;
      backed = t.backed;
      waiting =
          All-append Stands r.waiting
            ((event, channel, begin_evaluate event.pubkey (gate_type channel) r.gate) ∷ [])
            t.waiting ((before, now, after, split, signed, own_channel, asked_now r t), tt);
      calls = t.calls;
    }
    on_inserted-IsTrusted (some c) r signed own_channel t =
        control-IsTrusted Now now c channel.channel_id
          (record r { db = set_disposition event.id completed none r.db })
          (moved Now r _ refl refl t.calls t)

    pub received-IsTrusted :
        (r : AppRuntime)
        → IsTrusted Now r
        → IsTrusted Now (on_inbound_message verify lower schnorr now event channel r)
    unfolding on_inbound_message store_event
    received-IsTrusted r t =
        if_cases (IsTrusted Now) (event.pubkey == r.agent_pubkey) (λ _. t)
          (λ other.
            if_cases (IsTrusted Now) (not (verify event)) (λ _. t)
              (λ signed.
                if_cases (IsTrusted Now) (not (is_of (channel_id_of event) channel.channel_id))
                  (λ _. t)
                  (λ of_it.
                    if_cases (IsTrusted Now)
                      (insert_if_absent (inbox_record now event channel.channel_id) r.db).1
                      (λ _.
                        on_inserted-IsTrusted
                          (parse_control_command lower event r.agent_pubkey (some r.owner_pubkey)
                            (some r.agent_name))
                          (record r {
                            db =
                                (insert_if_absent (inbox_record now event channel.channel_id)
                                  r.db).0;
                          })
                          (unnot (verify event) signed)
                          (is_of_sound _ channel.channel_id (unnot _ of_it))
                          (moved Now r _ refl refl t.calls t))
                      (λ _. t))))
