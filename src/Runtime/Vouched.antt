-- ===== src/Runtime/Vouched.antt =====
-- Which events src/runtime/app-runtime.ts lets through to an actor.
use autogent.Prelude.{
  ℕ, zero, suc, ◌≡◌, refl, ◌∙◌, sym, String, Bool, true, false, ◌||◌, not, Option, none, some, List,
  [], ◌∷◌, ◌++◌, append_assoc, append-nil, if_cases, All,
}
use mathlib.Core.Path.{subst}
use mathlib.Core.List.{Memᴰ}
use mathlib.Core.List.Memᴰ
use autogent.JsMap
use autogent.Utf16.{Utf16}
use autogent.Nostr.{NostrEvent}
use autogent.ChannelMetadata.{ChannelInfo}
use autogent.Gate.{AuthorGateOptions, ProfileSnapshot, create_author_gate, answer, update_policy}
use autogent.Gate.Trust.{Policy, IsGateOf, create-IsGateOf}
use autogent.Gate.Admission.{answer-Means, answer-IsGateOf}
use autogent.Registry
use autogent.Registry.{submit_call}
use autogent.Runtime.{
  AppRuntime, Waiting, Step, received, gated, channel_added, channel_removing, channel_released,
  channel_removed, policy_changed, heads_changed, recovering_at, phase_reached, profile_synced,
  stopping, drained, stopped_now, step, run, actors_drained, finish_stop, begin_channel_removed,
  release_channel, finish_channel_removed, drain_profile_sync, sync_profile, on_evaluated,
  on_decision, pass_on, ensure_channel, submit_to, reject, without, waiting_at, degraded,
  is_stopping, is_pre_live,
}
use autogent.Runtime.Trusted.{
  unnot, policy_by, policy_after, IsPublic, IsAttested, IsVouched, Stands, IsTrusted,
  tell-AllVouched, forget-AllVouched, moved, begin_stop-IsTrusted, channel_added-IsTrusted,
  received-IsTrusted,
}

policy_after-snoc :
    (before : List Step) (s : Step) (p : Policy)
    → policy_after (before ++ s ∷ []) p ≡ policy_by s (policy_after before p)
unfolding policy_after
policy_after-snoc [] s p = refl
policy_after-snoc (b ∷ bs) s p = policy_after-snoc bs s (policy_by b p)

without-All : (P : Waiting → Type 0) (n : ℕ) (ws : List Waiting) → All P ws → All P (without n ws)
unfolding without
without-All P n [] h = tt
without-All P zero (w ∷ ws) h = h.1
without-All P (suc n) (w ∷ ws) h = (h.0, without-All P n ws h.1)

module _ (verify : NostrEvent → Bool) (lower : Utf16 → Utf16)
    (schnorr : String → String → String → Bool) (options : AuthorGateOptions) (owner : String)
    (all : List Step) where
  abbrev Trusted : Policy → AppRuntime → Type 0
  Trusted p r = IsTrusted verify lower schnorr options owner all p r

  submit_to-IsTrusted :
      (p : Policy) (now : ℕ) (event : NostrEvent) (id : String) (r : AppRuntime)
      → IsVouched verify lower schnorr options owner all (submit_call event)
      → Trusted p r
      → Trusted p (submit_to now event id r)
  unfolding submit_to Registry.submit
  submit_to-IsTrusted p now event id r v t =
      moved verify lower schnorr options owner all p r _ refl refl
        (tell-AllVouched verify lower schnorr options owner all (JsMap.get id r.registry.actors)
          (submit_call event) (record r.registry { rows = _ }) v t.calls)
        t

  pass_on-IsTrusted :
      (p : Policy) (now : ℕ) (event : NostrEvent) (channel : ChannelInfo) (r : AppRuntime)
      → IsVouched verify lower schnorr options owner all (submit_call event)
      → Trusted p r
      → Trusted p (pass_on now event channel r)
  unfolding pass_on ensure_channel
  pass_on-IsTrusted p now event channel r v t =
      submit_to-IsTrusted p now event channel.channel_id (ensure_channel channel r) v (
        if_cases (Trusted p) (Registry.has channel.channel_id r.registry) (λ _. t)
          (λ _. channel_added-IsTrusted verify lower schnorr options owner all p channel r t))

  abbrev AllStand : Option Waiting → Type 0
  AllStand none = Unit
  AllStand (some w) = Stands verify lower schnorr options owner all w

  evaluated-IsTrusted :
      (p : Policy) (now : ℕ) (lookup : Option (Option ProfileSnapshot)) (n : ℕ) (w : Option Waiting)
      (r : AppRuntime)
      → Memᴰ (gated now lookup n) all
      → AllStand w
      → Trusted p r
      → Trusted p (on_evaluated verify lower schnorr now lookup w r)
  unfolding on_evaluated on_decision reject
  evaluated-IsTrusted p now lookup n none r m g t = t
  evaluated-IsTrusted p now lookup n (some (event, channel, asked)) r m
        (before, at, after, split, signed, own_channel, means) t =
      let Backs = IsAttested verify lower schnorr options owner all in
      let d = answer schnorr lookup event.pubkey asked r.gate in
      let (admits, backed) =
        answer-Means schnorr Backs (IsPublic channel) options.agent_pubkey options.sibling_agents
          owner (policy_after before (options.respond_to, options.allowed_authors)) event.pubkey
          lookup asked r.gate (λ q e v. (q, now, n, subst (λ l. Memᴰ (gated now l n) all) e m, v))
          means t.backed in
      let later : Trusted p (record r { gate = d.1 }) = record {
        gate = answer-IsGateOf schnorr options p lookup event.pubkey asked r.gate t.gate;
        backed = backed;
        waiting = t.waiting;
        calls = t.calls;
      } in
      let rejecting =
        moved verify lower schnorr options owner all p (record r { gate = d.1 })
          (reject event (record r { gate = d.1 })) refl refl t.calls later in
      if_cases (Trusted p) (not d.0.allowed) (λ _. rejecting)
        (λ allowed.
          if_cases (Trusted p) (degraded (record r { gate = d.1 })) (λ _. rejecting)
            (λ _.
              pass_on-IsTrusted p now event channel (record r { gate = d.1 })
                (
                  channel,
                  (
                    before,
                    at,
                    after,
                    split,
                    signed,
                    own_channel,
                    admits (unnot d.0.allowed allowed),
                  ),
                )
                later))

  waiting_at-AllStand :
      (n : ℕ) (ws : List Waiting)
      → All (Stands verify lower schnorr options owner all) ws
      → AllStand (waiting_at n ws)
  unfolding waiting_at
  waiting_at-AllStand n [] h = tt
  waiting_at-AllStand zero (w ∷ ws) h = h.0
  waiting_at-AllStand (suc n) (w ∷ ws) h = waiting_at-AllStand n ws h.1

  module _ (own : options.owner_pubkey ≡ some owner) (before after : List Step) where
    abbrev Now : Policy
    Now = policy_after before (options.respond_to, options.allowed_authors)

    step-IsTrusted :
        (s : Step) (r : AppRuntime)
        → all ≡ before ++ s ∷ after
        → Trusted Now r
        → Trusted (policy_by s Now) (step verify lower schnorr s r)
    unfolding step release_channel Registry.release_removed begin_channel_removed
        finish_channel_removed actors_drained finish_stop drain_profile_sync sync_profile
        Registry.begin_remove Registry.finish_remove Registry.finish_close_all policy_by
        update_policy
    step-IsTrusted (received now event channel) r e t =
        received-IsTrusted verify lower schnorr options owner all own before now event channel after
          e r t
    step-IsTrusted (gated now lookup n) r e t =
        evaluated-IsTrusted Now now lookup n (waiting_at n r.waiting)
          (record r { waiting = without n r.waiting })
          (subst (Memᴰ (gated now lookup n)) (sym e) (Memᴰ.append_right before (Memᴰ.head refl)))
          (waiting_at-AllStand n r.waiting t.waiting)
          (record {
            gate = t.gate;
            backed = t.backed;
            waiting = without-All _ n r.waiting t.waiting;
            calls = t.calls;
          })
    step-IsTrusted (channel_added channel) r e t =
        channel_added-IsTrusted verify lower schnorr options owner all Now channel r t
    step-IsTrusted (channel_removing id) r e t =
        moved verify lower schnorr options owner all Now r _ refl refl
          (forget-AllVouched verify lower schnorr options owner all (JsMap.get id r.registry.actors)
            id r.registry t.calls)
          t
    step-IsTrusted (channel_released id) r e t =
        moved verify lower schnorr options owner all Now r _ refl refl t.calls t
    step-IsTrusted (channel_removed true id) r e t =
        moved verify lower schnorr options owner all Now r _ refl refl t.calls t
    step-IsTrusted (channel_removed false id) r e t =
        moved verify lower schnorr options owner all Now r _ refl refl t.calls t
    step-IsTrusted (policy_changed mode authors) r e t = record {
      gate = record {
        agent = t.gate.agent;
        owned = t.gate.owned;
        siblings = t.gate.siblings;
        mode = refl;
        authors = refl;
      };
      backed = t.backed;
      waiting = t.waiting;
      calls = t.calls;
    }
    step-IsTrusted (heads_changed core auth) r e t =
        moved verify lower schnorr options owner all Now r _ refl refl t.calls t
    step-IsTrusted (recovering_at now) r e t =
        moved verify lower schnorr options owner all Now r _ refl refl t.calls t
    step-IsTrusted (phase_reached phase) r e t =
        moved verify lower schnorr options owner all Now r _ refl refl t.calls t
    step-IsTrusted (profile_synced ok) r e t =
        if_cases (λ (s : Bool × AppRuntime). Trusted Now s.1)
          (not r.profile_dirty || is_pre_live r.phase || is_stopping r.phase) (λ _. t)
          (λ _. moved verify lower schnorr options owner all Now r _ refl refl t.calls t)
    step-IsTrusted (stopping reason) r e t =
        begin_stop-IsTrusted verify lower schnorr options owner all Now reason r t
    step-IsTrusted drained r e t =
        moved verify lower schnorr options owner all Now r _ refl refl t.calls t
    step-IsTrusted stopped_now r e t =
        moved verify lower schnorr options owner all Now r _ refl refl t.calls t

  run-IsTrusted :
      (own : options.owner_pubkey ≡ some owner) (before ss : List Step) (r : AppRuntime)
      → all ≡ before ++ ss
      → Trusted (policy_after before (options.respond_to, options.allowed_authors)) r
      → Trusted
          (policy_after all (options.respond_to, options.allowed_authors))
          (run verify lower schnorr ss r)
  unfolding run
  run-IsTrusted own before [] r e t =
      subst (λ b. Trusted (policy_after b (options.respond_to, options.allowed_authors)) r)
        (sym (e ∙ append-nil before)) t
  run-IsTrusted own before (s ∷ ss) r e t =
      run-IsTrusted own (before ++ s ∷ []) ss (step verify lower schnorr s r)
        (e ∙ sym (append_assoc before (s ∷ []) ss))
        (subst (λ p. Trusted p (step verify lower schnorr s r))
          (sym (policy_after-snoc before s (options.respond_to, options.allowed_authors)))
          (step-IsTrusted own before ss s r e t))

-- From a runtime with a new gate that has an owner, no handler that waits and nothing handed on, and
-- whatever happens then: every event that an actor was given came in, at a moment of the run, with a
-- valid signature and by the channel that its `h` tag names. Its author is not the agent, the mode at
-- that moment, of the last policy change before it, was not `nobody`, and the author is the owner,
-- or an agent that the operator named, or a lookup of the run gave a profile under his own key with
-- a valid attestation by the owner; or else the channel was known not to be a DM, and the policy at
-- that moment was `anyone`, or was `allowlist` and listed the author.
pub run-AllVouched :
    (verify : NostrEvent → Bool) (lower : Utf16 → Utf16) (schnorr : String → String → String → Bool)
    (options : AuthorGateOptions) (owner : String) (ss : List Step) (r : AppRuntime)
    → options.owner_pubkey ≡ some owner
    → r.gate ≡ create_author_gate options
    → r.waiting ≡ []
    → r.registry.calls ≡ []
    → All
        (λ c. IsVouched verify lower schnorr options owner ss c.1)
        (run verify lower schnorr ss r).registry.calls
unfolding policy_after create_author_gate
run-AllVouched verify lower schnorr options owner ss r own new idle silent =
    (run-IsTrusted verify lower schnorr options owner ss own [] ss r refl (record {
      gate = subst (IsGateOf options _) (sym new) (create-IsGateOf options);
      backed =
          subst
            (λ g.
              All (λ e. e.1 ≡ true → IsAttested verify lower schnorr options owner ss e.0)
                g.siblings)
            (sym new) tt;
      waiting = subst (All (Stands verify lower schnorr options owner ss)) (sym idle) tt;
      calls =
          subst (All (λ c. IsVouched verify lower schnorr options owner ss c.1)) (sym silent) tt;
    })).calls
