-- ===== src/Gate/Admission.antt =====
-- Whom src/security/author-gate.ts lets in, over every history of a gate.
use autogent.Prelude.{
  ◌≢◌, ◌≡◌, refl, ap, ◌∙◌, String, Bool, true, false, Option, none, some, List, [], ◌∷◌, ◌++◌,
  eq_iff, arith, All, false≢true,
}
use mathlib.Core.Path.{subst}
use mathlib.Core.List.{Memᴰ}
use mathlib.Core.List.Memᴰ
use autogent.Attestation.{AuthTag, is_hex, extract_auth_tag, verify_attestation}
use autogent.Gate.{
  ChannelType, dm, unknown, ProfileSnapshot, AuthorGate, AuthorGateOptions, create_author_gate,
  update_policy, cache_sibling, verify_sibling_profile, verify_tag, sibling_decision, looked_up,
  Evaluation, decided, asking, begin_evaluate, answer, evaluate, GateEvent, evaluated,
  policy_updated, gate_step, gate_run, or_deny,
}
use autogent.Gate.Trust.{
  Policy, Admitted, Means, Means-of, IsGateOf, create-IsGateOf, begin_evaluate-Means,
  is_restricted_sound, IsBacked, cached_backed, cache_sibling-IsBacked,
}

module _ (schnorr_verify : String → String → String → Bool) where
  -- The profile is the author's and carries a valid attestation by the owner.
  abbrev pub Vouches : ProfileSnapshot → String → String → Type 0
  Vouches p author owner =
      (is_hex 64 author ≡ true)
      × (p.pubkey ≡ author)
      × ((tag : AuthTag) × (extract_auth_tag p.tags ≡ some tag)
          × (tag.owner_pubkey ≡ owner)
          × (verify_attestation schnorr_verify tag author ≡ true))

  verify_sibling_profile-Vouches :
      (p : ProfileSnapshot) (author owner : String)
      → verify_sibling_profile schnorr_verify (some p) author owner ≡ true
      → Vouches p author owner
  unfolding verify_sibling_profile
  verify_sibling_profile-Vouches p author owner h = (
    ground (arith, h),
    (eq_iff p.pubkey author).0 (ground (arith, h)),
    attested (extract_auth_tag p.tags) refl (ground (arith, h)),
  )
    where
      attested :
          (o : Option AuthTag)
          → extract_auth_tag p.tags ≡ o
          → verify_tag schnorr_verify o author owner ≡ true
          → (tag : AuthTag) × (extract_auth_tag p.tags ≡ some tag)
            × (tag.owner_pubkey ≡ owner)
            × (verify_attestation schnorr_verify tag author ≡ true)
      attested none e k = absurd (false≢true k)
      attested (some tag) e k =
          (tag, e, (eq_iff tag.owner_pubkey owner).0 (ground (arith, k)), ground (arith, k))

  -- The answer of the lookup ends what an evaluation meant, and the cache stays backed.
  pub answer-Means :
      (Backs : String → Type 0) (P : Type 0) (agent : String) (siblings : List String)
      (owner : String) (p : Policy) (author : String) (lookup : Option (Option ProfileSnapshot))
      (e : Evaluation) (g : AuthorGate)
      → ((q : ProfileSnapshot) → lookup ≡ some (some q) → Vouches q author owner → Backs author)
      → Means (Backs author) P agent siblings owner p author e
      → IsBacked Backs g.siblings
      → ((answer schnorr_verify lookup author e g).0.allowed ≡ true
          → Admitted (Backs author) P agent siblings owner p author)
        × IsBacked Backs (answer schnorr_verify lookup author e g).1.siblings
  unfolding answer looked_up verify_sibling_profile
  answer-Means Backs P agent siblings owner p author lookup (decided d) g w m b = (m, b)
  answer-Means Backs P agent siblings owner p author none (asking code o) g w m b = (refused, b)
    where
      refused :
          (or_deny code (looked_up schnorr_verify none author o g).0).allowed ≡ true
          → Admitted (Backs author) P agent siblings owner p author
      refused q = absurd (false≢true q)
  answer-Means Backs P agent siblings owner p author (some l) (asking code o) g w (same, m) b =
      checked (verify_sibling_profile schnorr_verify l author o) refl
    where
      vouched :
          (x : Option ProfileSnapshot)
          → l ≡ x
          → verify_sibling_profile schnorr_verify x author o ≡ true
          → Backs author
      vouched none e k = absurd (false≢true k)
      vouched (some q) e k =
          w q (ap some e)
            (subst (Vouches q author) same (verify_sibling_profile-Vouches q author o k))

      checked :
          (v : Bool)
          → verify_sibling_profile schnorr_verify l author o ≡ v
          → ((or_deny code (sibling_decision v)).allowed ≡ true
              → Admitted (Backs author) P agent siblings owner p author)
            × IsBacked Backs (cache_sibling author v g).siblings
      checked true e = (
        (λ _. m (vouched l refl e)),
        cache_sibling-IsBacked Backs author true g b (λ _. vouched l refl e),
      )
      checked false e = (
        (λ q. absurd (false≢true q)),
        cache_sibling-IsBacked Backs author false g b (λ q. absurd (false≢true q)),
      )

  pub answer-IsGateOf :
      (o : AuthorGateOptions) (p : Policy) (lookup : Option (Option ProfileSnapshot))
      (author : String) (e : Evaluation) (g : AuthorGate)
      → IsGateOf o p g
      → IsGateOf o p (answer schnorr_verify lookup author e g).1
  unfolding answer looked_up cache_sibling
  answer-IsGateOf o p lookup author (decided d) g h = h
  answer-IsGateOf o p none author (asking code w) g h = h
  answer-IsGateOf o p (some l) author (asking code w) g h = record {
    agent = h.agent;
    owned = h.owned;
    siblings = h.siblings;
    mode = h.mode;
    authors = h.authors;
  }

  -- The lookup for a message gave a profile of its author that vouches for him.
  abbrev pub Attested : List (GateEvent schnorr_verify) → String → String → Type 0
  Attested es owner author =
      (q : ProfileSnapshot) × (channel : ChannelType) × Memᴰ
        (evaluated (some (some q)) author channel) es
      × Vouches q author owner

  -- The policy of the last change, if there was one.
  unfoldable pub policy_after : List (GateEvent schnorr_verify) → Policy → Policy
  policy_after [] p = p
  policy_after (evaluated lookup author channel ∷ es) p = policy_after es p
  policy_after (policy_updated mode authors ∷ es) p = policy_after es (mode, authors)

  abbrev IsPublic : ChannelType → Type 0
  IsPublic channel = (channel ≢ dm) × (channel ≢ unknown)

  module _ (o : AuthorGateOptions) (owner : String) (own : o.owner_pubkey ≡ some owner)
      (all : List (GateEvent schnorr_verify)) where
    evaluate-Admits :
        (lookup : Option (Option ProfileSnapshot)) (author : String) (channel : ChannelType)
        (p : Policy) (g : AuthorGate)
        → Memᴰ (evaluated lookup author channel) all
        → IsGateOf o p g
        → IsBacked (Attested all owner) g.siblings
        → ((evaluate schnorr_verify lookup author channel g).0.allowed ≡ true
            → Admitted
                (Attested all owner author)
                (IsPublic channel)
                o.agent_pubkey
                o.sibling_agents
                owner
                p
                author)
          × IsBacked
              (Attested all owner)
              (evaluate schnorr_verify lookup author channel g).1.siblings
    unfolding evaluate
    evaluate-Admits lookup author channel p g m h b =
        answer-Means (Attested all owner) (IsPublic channel) o.agent_pubkey o.sibling_agents owner p
          author lookup (begin_evaluate author channel g) g
          (λ q e v. (q, channel, subst (λ l. Memᴰ (evaluated l author channel) all) e m, v))
          (Means-of _ _ o p g owner author _ h (
            begin_evaluate-Means (Attested all owner author) (IsPublic channel) owner author channel
              g (h.owned ∙ own) (cached_backed (Attested all owner) author g.siblings b)
              (is_restricted_sound channel)))
          b

    gate_run-Holds :
        (es : List (GateEvent schnorr_verify)) (p : Policy) (g : AuthorGate)
        → All (λ e. Memᴰ e all) es
        → IsGateOf o p g
        → IsBacked (Attested all owner) g.siblings
        → IsGateOf o (policy_after es p) (gate_run schnorr_verify es g)
          × IsBacked (Attested all owner) (gate_run schnorr_verify es g).siblings
    unfolding gate_run gate_step policy_after update_policy evaluate
    gate_run-Holds [] p g m h b = (h, b)
    gate_run-Holds (evaluated lookup author channel ∷ es) p g (m, ms) h b =
        gate_run-Holds es p (evaluate schnorr_verify lookup author channel g).1 ms
          (answer-IsGateOf o p lookup author (begin_evaluate author channel g) g h)
          (evaluate-Admits lookup author channel p g m h b).1
    gate_run-Holds (policy_updated mode authors ∷ es) p g (m, ms) h b =
        gate_run-Holds es (mode, authors) (update_policy mode authors g) ms
          (record {
            agent = h.agent;
            owned = h.owned;
            siblings = h.siblings;
            mode = refl;
            authors = refl;
          })
          b

  abbrev pub gate_after : AuthorGateOptions → List (GateEvent schnorr_verify) → AuthorGate
  gate_after o es = gate_run schnorr_verify es (create_author_gate o)

  All-mem :
      (all es : List (GateEvent schnorr_verify))
      → ((e : GateEvent schnorr_verify) → Memᴰ e es → Memᴰ e all)
      → All (λ e. Memᴰ e all) es
  All-mem all [] f = tt
  All-mem all (e ∷ es) f = (f e (Memᴰ.head refl), All-mem all es (λ x m. f x (Memᴰ.tail m)))

  -- A new gate with an owner, after any messages, lookups and policy changes, one after the other: an author
  -- whom it lets in is not the agent, the mode of the last policy is not `nobody`, and the author
  -- is the owner, or an agent that the operator named, or a lookup of him, for this or an earlier
  -- message, gave a profile under his own key with a valid attestation by the owner; or else the
  -- channel is known not to be a DM, and the last policy is `anyone`, or is `allowlist` and lists
  -- the author.
  pub evaluate_admits :
      (o : AuthorGateOptions) (owner : String) (es : List (GateEvent schnorr_verify))
      (lookup : Option (Option ProfileSnapshot)) (author : String) (channel : ChannelType)
      → o.owner_pubkey ≡ some owner
      → (evaluate schnorr_verify lookup author channel (gate_after o es)).0.allowed ≡ true
      → Admitted
          (Attested (es ++ evaluated lookup author channel ∷ []) owner author)
          ((channel ≢ dm) × (channel ≢ unknown))
          o.agent_pubkey
          o.sibling_agents
          owner
          (policy_after es (o.respond_to, o.allowed_authors))
          author
  unfolding create_author_gate
  evaluate_admits o owner es lookup author channel own allowed =
      let all = es ++ evaluated lookup author channel ∷ [] in
      let (h, b) =
        gate_run-Holds o owner own all es (o.respond_to, o.allowed_authors) (create_author_gate o)
          (All-mem all es (λ e m. Memᴰ.append_left _ m)) (create-IsGateOf o) tt in
      (evaluate-Admits o owner own all lookup author channel _ (gate_after o es)
          (Memᴰ.append_right es (Memᴰ.head refl)) h b).0
        allowed
