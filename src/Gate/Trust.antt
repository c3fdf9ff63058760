-- ===== src/Gate/Trust.antt =====
-- Whom src/security/author-gate.ts lets in.
use autogent.Prelude.{
  false≢true, ◌≡◌, refl, sym, ap, ◌∙◌, ◌≢◌, ◌⊎◌, inl, inr, String, Bool, true, false, ◌&&◌, Option,
  none, some, List, [], ◌∷◌, ◌==◌, eq_iff, leb, length, arith, Bool-cases, All, if_cases, ne_of_eqb,
}
use mathlib.Core.Path.{subst}
use autogent.Turn.{includes}
use autogent.Gate.{
  ChannelType, dm, unknown, RespondToMode, owner_only, anyone, allowlist, nobody,
  dm_restricted_code, not_owner_or_sibling_code, AuthorGate, AuthorGateOptions, create_author_gate,
  cached, set_cached, cache_sibling, Evaluation, decided, asking, unless_trusted, begin_evaluate,
  remembered, trusted_by, is_owner_or_sibling, is_restricted, is_nobody, is_anyone, is_allowlist,
  AuthorDecisionCode,
}

-- The respond-to mode and the allowlist.
abbrev pub Policy : Type 0
Policy = RespondToMode × List String

-- Why an author may be let in: `A` says that he is attested, `P` that the channel is public.
abbrev pub Admitted : Type 0 → Type 0 → String → List String → String → Policy → String → Type 0
Admitted A P agent siblings owner (mode, authors) author =
    (author ≢ agent)
    × (mode ≢ nobody)
    × ((author ≡ owner)
        ⊎ (includes author siblings ≡ true)
        ⊎ A
        ⊎ (P × ((mode ≡ anyone) ⊎ ((mode ≡ allowlist) × (includes author authors ≡ true)))))

-- A gate of the process: the options that do not change, and the policy.
pub record IsGateOf (o : AuthorGateOptions) (p : Policy) (g : AuthorGate) : Type 0 where
  pub agent : g.agent_pubkey ≡ o.agent_pubkey
  pub owned : g.owner_pubkey ≡ o.owner_pubkey
  pub siblings : g.configured_siblings ≡ o.sibling_agents
  pub mode : g.respond_to ≡ p.0
  pub authors : g.allowed_authors ≡ p.1

pub create-IsGateOf :
    (o : AuthorGateOptions) → IsGateOf o (o.respond_to, o.allowed_authors) (create_author_gate o)
unfolding create_author_gate
create-IsGateOf o = record {
  agent = refl;
  owned = refl;
  siblings = refl;
  mode = refl;
  authors = refl;
}

is_anyone_sound : (m : RespondToMode) → is_anyone m ≡ true → m ≡ anyone
is_anyone_sound anyone h = refl
is_anyone_sound owner_only h = absurd (false≢true h)
is_anyone_sound allowlist h = absurd (false≢true h)
is_anyone_sound nobody h = absurd (false≢true h)

is_allowlist_sound : (m : RespondToMode) → is_allowlist m ≡ true → m ≡ allowlist
is_allowlist_sound allowlist h = refl
is_allowlist_sound owner_only h = absurd (false≢true h)
is_allowlist_sound anyone h = absurd (false≢true h)
is_allowlist_sound nobody h = absurd (false≢true h)

is_nobody_sound : (m : RespondToMode) → is_nobody m ≡ false → m ≢ nobody
is_nobody_sound m h e = false≢true (sym h ∙ ap is_nobody e)

pub is_restricted_sound : (c : ChannelType) → is_restricted c ≡ false → (c ≢ dm) × (c ≢ unknown)
is_restricted_sound c h =
    ((λ e. false≢true (sym h ∙ ap is_restricted e)), (λ e. false≢true (sym h ∙ ap is_restricted e)))

-- What an evaluation that began with a gate means for its end.
abbrev pub Means :
    (A P : Type 0) → String → List String → String → Policy → String → Evaluation → Type 0
Means A P agent siblings owner p author (decided d) =
    d.allowed ≡ true → Admitted A P agent siblings owner p author
Means A P agent siblings owner p author (asking code w) =
    (w ≡ owner) × (A → Admitted A P agent siblings owner p author)

module _ (A P : Type 0) (owner author : String) (channel : ChannelType) (g : AuthorGate)
    (owned : g.owner_pubkey ≡ some owner) (backed : cached author g.siblings ≡ some true → A)
    (public : is_restricted channel ≡ false → P) where
  abbrev Lets : Type 0
  Lets =
      Admitted A P g.agent_pubkey g.configured_siblings owner (g.respond_to, g.allowed_authors)
        author

  abbrev MeansHere : Evaluation → Type 0
  MeansHere =
      Means A P g.agent_pubkey g.configured_siblings owner (g.respond_to, g.allowed_authors) author

  trusted-Means :
      (code : AuthorDecisionCode)
      → author ≢ g.agent_pubkey
      → g.respond_to ≢ nobody
      → MeansHere (unless_trusted code (trusted_by (some owner) author g))
  unfolding unless_trusted trusted_by remembered
  trusted-Means code other mode =
      if_cases (λ t. MeansHere (unless_trusted code t)) (author == owner)
        (λ t. (λ _. (other, mode, inl ((eq_iff author owner).0 t))))
        (λ _.
          if_cases (λ t. MeansHere (unless_trusted code t)) (includes author g.configured_siblings)
            (λ u. (λ _. (other, mode, inr (inl u))))
            (λ _. from_cache (cached author g.siblings) refl))
    where
      from_cache :
          (o : Option Bool)
          → cached author g.siblings ≡ o
          → MeansHere (unless_trusted code (remembered o owner))
      from_cache (some true) e = λ _. (other, mode, inr (inr (inl (backed e))))
      from_cache (some false) e = λ q. absurd (false≢true q)
      from_cache none e = (refl, (λ a. (other, mode, inr (inr (inl a)))))

  asked-Means :
      (code : AuthorDecisionCode)
      → author ≢ g.agent_pubkey
      → g.respond_to ≢ nobody
      → MeansHere (unless_trusted code (is_owner_or_sibling author g))
  unfolding is_owner_or_sibling
  asked-Means code other mode =
      subst (λ o. MeansHere (unless_trusted code (trusted_by o author g))) (sym owned)
        (trusted-Means code other mode)

  pub begin_evaluate-Means : MeansHere (begin_evaluate author channel g)
  unfolding begin_evaluate
  begin_evaluate-Means =
      if_cases MeansHere (author == g.agent_pubkey) (λ _. (λ q. absurd (false≢true q)))
        (λ t.
          let other = ne_of_eqb author g.agent_pubkey t in
          if_cases MeansHere (is_nobody g.respond_to) (λ _. (λ q. absurd (false≢true q)))
            (λ n.
              let mode = is_nobody_sound g.respond_to n in
              if_cases MeansHere (is_restricted channel)
                (λ _. asked-Means dm_restricted_code other mode)
                (λ r.
                  if_cases MeansHere (is_anyone g.respond_to)
                    (λ a. (λ _. (
                      other,
                      mode,
                      inr (inr (inr (public r, inl (is_anyone_sound g.respond_to a)))),
                    )))
                    (λ _.
                      if_cases MeansHere
                        (is_allowlist g.respond_to && includes author g.allowed_authors)
                        (λ l. (λ _. (other, mode, inr (inr (inr (public r, inr (both l)))))))
                        (λ _. asked-Means not_owner_or_sibling_code other mode)))))
    where
      both :
          (is_allowlist g.respond_to && includes author g.allowed_authors) ≡ true
          → (g.respond_to ≡ allowlist) × (includes author g.allowed_authors ≡ true)
      both l = (is_allowlist_sound g.respond_to (ground (arith, l)), ground (arith, l))

-- The same, of the gate's options and the policy.
pub Means-of :
    (A P : Type 0) (o : AuthorGateOptions) (p : Policy) (g : AuthorGate) (owner author : String)
    (e : Evaluation)
    → IsGateOf o p g
    → Means A P g.agent_pubkey g.configured_siblings owner
        (g.respond_to, g.allowed_authors)
        author
        e
    → Means A P o.agent_pubkey o.sibling_agents owner p author e
Means-of A P o p g owner author e h m =
    subst (λ m. Means A P o.agent_pubkey o.sibling_agents owner (m, p.1) author e) h.mode
      (subst (λ l. Means A P o.agent_pubkey o.sibling_agents owner (g.respond_to, l) author e)
        h.authors
        (subst (λ s. Means A P o.agent_pubkey s owner (g.respond_to, g.allowed_authors) author e)
          h.siblings
          (subst
            (λ a.
              Means A P a g.configured_siblings owner (g.respond_to, g.allowed_authors) author e)
            h.agent m)))

-- What the cache says of authors, when a predicate stands behind it.
module _ (Backs : String → Type 0) where
  abbrev pub IsBacked : List (String × Bool) → Type 0
  IsBacked entries = All (λ e. e.1 ≡ true → Backs e.0) entries

  pub cached_backed :
      (author : String) (entries : List (String × Bool))
      → IsBacked entries
      → cached author entries ≡ some true
      → Backs author
  unfolding cached
  cached_backed author [] h e = absurd (contradiction e)
    where
      contradiction : ◌≡◌ {A = Option Bool} none (some true) → ⊥
      contradiction q = cc
  cached_backed author ((k, v) ∷ rest) h e = elim (Bool-cases (k == author)) [
    | inl t ↦ subst Backs ((eq_iff k author).0 t) (h.0 (value (rw t at e)))
    | inr t ↦ cached_backed author rest h.1 (rw t at e)
  ]
    where
      value : ◌≡◌ {A = Option Bool} (some v) (some true) → v ≡ true
      value q = cc

  set_cached-IsBacked :
      (author : String) (v : Bool) (entries : List (String × Bool))
      → IsBacked entries
      → (v ≡ true → Backs author)
      → IsBacked (set_cached author v entries)
  unfolding set_cached
  set_cached-IsBacked author v [] h w = (w, tt)
  set_cached-IsBacked author v ((k, u) ∷ rest) h w = elim (Bool-cases (k == author)) [
    | inl t ↦ rw t ((λ q. subst Backs (sym ((eq_iff k author).0 t)) (w q)), h.1)
    | inr t ↦ rw t (h.0, set_cached-IsBacked author v rest h.1 w)
  ]

  pub cache_sibling-IsBacked :
      (author : String) (v : Bool) (g : AuthorGate)
      → IsBacked g.siblings
      → (v ≡ true → Backs author)
      → IsBacked (cache_sibling author v g).siblings
  unfolding cache_sibling
  cache_sibling-IsBacked author v g h w =
      set_cached-IsBacked author v _
        (elim (Bool-cases (leb g.cache_cap (length g.siblings))) [
          | inl t ↦ rw t tt
          | inr t ↦ rw t h
        ])
        w
