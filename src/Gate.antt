-- ===== src/Gate.antt =====
-- src/security/author-gate.ts. The profile lookup is outside: its answer is an argument, `none` where
-- it throws. A decision is given by its code; its text for the operator is not modelled.
pub mod Trust
pub mod Admission
use autogent.Prelude.{
  ℕ, String, Bool, true, false, ◌&&◌, ◌||◌, not, Option, none, some, List, [], ◌∷◌, ◌++◌, ◌==◌, leb,
  length, if◌then◌else◌,
}
use autogent.Nostr.{NostrTag}
use autogent.Turn.{includes}
use autogent.Attestation.{AuthTag, is_hex, extract_auth_tag, verify_attestation}

pub data ChannelType : Type 0 where
  stream private_channel dm unknown : ChannelType

pub data RespondToMode : Type 0 where
  owner_only allowlist anyone nobody : RespondToMode

pub record ProfileSnapshot : Type 0 where
  pub pubkey : String
  pub tags : List NostrTag

pub data AuthorDecisionCode : Type 0 where
  self_code nobody_code anyone_code owner_code sibling_code configured_sibling_code allowlist_code
        no_owner_code dm_restricted_code not_owner_or_sibling_code :
      AuthorDecisionCode

pub record AuthorDecision : Type 0 where
  pub allowed : Bool
  pub code : AuthorDecisionCode

pub record AuthorGate : Type 0 where
  pub agent_pubkey : String
  pub owner_pubkey : Option String
  pub respond_to : RespondToMode
  pub allowed_authors : List String
  pub configured_siblings : List String
  pub cache_cap : ℕ
  pub siblings : List (String × Bool)

pub record AuthorGateOptions : Type 0 where
  pub agent_pubkey : String
  pub owner_pubkey : Option String
  pub respond_to : RespondToMode
  pub allowed_authors : List String
  pub sibling_agents : List String
  pub cache_cap : ℕ

unfoldable pub create_author_gate : AuthorGateOptions → AuthorGate
create_author_gate o = record {
  agent_pubkey = o.agent_pubkey;
  owner_pubkey = o.owner_pubkey;
  respond_to = o.respond_to;
  allowed_authors = o.allowed_authors;
  configured_siblings = o.sibling_agents;
  cache_cap = o.cache_cap;
  siblings = [];
}

unfoldable pub update_policy : RespondToMode → List String → AuthorGate → AuthorGate
update_policy mode authors g = record g { respond_to = mode; allowed_authors = authors }

abbrev pub allow : AuthorDecisionCode → AuthorDecision
allow code = record { allowed = true; code = code }

abbrev pub deny : AuthorDecisionCode → AuthorDecision
deny code = record { allowed = false; code = code }

unfoldable pub cached : String → List (String × Bool) → Option Bool
cached author [] = none
cached author ((k, v) ∷ rest) = if k == author then some v else cached author rest

-- `Map.set`
unfoldable pub set_cached : String → Bool → List (String × Bool) → List (String × Bool)
set_cached author v [] = (author, v) ∷ []
set_cached author v ((k, w) ∷ rest) =
    if k == author then (k, v) ∷ rest else (k, w) ∷ set_cached author v rest

unfoldable pub cache_sibling : String → Bool → AuthorGate → AuthorGate
cache_sibling author verified g = record g {
  siblings =
      set_cached author verified (if leb g.cache_cap (length g.siblings) then [] else g.siblings);
}

abbrev pub sibling_decision : Bool → AuthorDecision
sibling_decision verified = if verified then allow sibling_code else deny not_owner_or_sibling_code

-- What `isOwnerOrSibling` knows when its caller first awaits it: its decision, or that it asks for the
-- author's profile, with the owner that it read.
pub data SiblingAnswer : Type 0 where
  known : AuthorDecision → SiblingAnswer
  unknown_to : String → SiblingAnswer

unfoldable pub remembered : Option Bool → String → SiblingAnswer
remembered (some verified) owner = known (sibling_decision verified)
remembered none owner = unknown_to owner

unfoldable pub trusted_by : Option String → String → AuthorGate → SiblingAnswer
unfolding remembered
trusted_by none author g = known (deny no_owner_code)
trusted_by (some owner) author g =
    if author == owner
    then known (allow owner_code)
    else if includes author g.configured_siblings
    then known (allow configured_sibling_code)
    else remembered (cached author g.siblings) owner

unfoldable pub is_owner_or_sibling : String → AuthorGate → SiblingAnswer
unfolding trusted_by
is_owner_or_sibling author g = trusted_by g.owner_pubkey author g

abbrev pub is_no_owner : AuthorDecisionCode → Bool
is_no_owner no_owner_code = true
is_no_owner _ = false

-- A decision that names its own reason stays; any other refusal takes the branch's code.
abbrev pub or_deny : AuthorDecisionCode → AuthorDecision → AuthorDecision
or_deny code trusted = if trusted.allowed || is_no_owner trusted.code then trusted else deny code

abbrev pub is_restricted : ChannelType → Bool
is_restricted dm = true
is_restricted unknown = true
is_restricted _ = false

abbrev pub is_nobody : RespondToMode → Bool
is_nobody nobody = true
is_nobody _ = false

abbrev pub is_anyone : RespondToMode → Bool
is_anyone anyone = true
is_anyone _ = false

abbrev pub is_allowlist : RespondToMode → Bool
is_allowlist allowlist = true
is_allowlist _ = false

-- What `evaluate` has come to when its caller first awaits it: the mode, the allowlist and the cache are
-- read by then. `asking` has the code of a refusal and the owner that the profile is to name.
pub data Evaluation : Type 0 where
  decided : AuthorDecision → Evaluation
  asking : AuthorDecisionCode → String → Evaluation

unfoldable pub unless_trusted : AuthorDecisionCode → SiblingAnswer → Evaluation
unless_trusted code (known trusted) = decided (or_deny code trusted)
unless_trusted code (unknown_to owner) = asking code owner

unfoldable pub begin_evaluate : String → ChannelType → AuthorGate → Evaluation
unfolding is_owner_or_sibling unless_trusted
begin_evaluate author channel g =
    if author == g.agent_pubkey
    then decided (deny self_code)
    else if is_nobody g.respond_to
    then decided (deny nobody_code)
    else if is_restricted channel
    then unless_trusted dm_restricted_code (is_owner_or_sibling author g)
    else if is_anyone g.respond_to
    then decided (allow anyone_code)
    else if is_allowlist g.respond_to && includes author g.allowed_authors
    then decided (allow allowlist_code)
    else unless_trusted not_owner_or_sibling_code (is_owner_or_sibling author g)

module _ (schnorr_verify : String → String → String → Bool) where
  abbrev pub verify_tag : Option AuthTag → String → String → Bool
  verify_tag none author owner = false
  verify_tag (some tag) author owner =
      tag.owner_pubkey == owner && verify_attestation schnorr_verify tag author

  unfoldable pub verify_sibling_profile : Option ProfileSnapshot → String → String → Bool
  verify_sibling_profile none author owner = false
  verify_sibling_profile (some profile) author owner =
      is_hex 64 author
      && is_hex 64 owner
      && profile.pubkey == author
      && verify_tag (extract_auth_tag profile.tags) author owner

  -- What the answer of the lookup decides; a lookup that threw is not remembered.
  unfoldable pub looked_up :
      Option (Option ProfileSnapshot) → String → String → AuthorGate → AuthorDecision × AuthorGate
  looked_up none author owner g = (deny not_owner_or_sibling_code, g)
  looked_up (some profile) author owner g =
      let verified = verify_sibling_profile profile author owner in
      (sibling_decision verified, cache_sibling author verified g)

  -- The rest of `evaluate`, with the answer of the lookup where there is one, on the gate as it is then.
  unfoldable pub answer :
      Option (Option ProfileSnapshot)
      → String
      → Evaluation
      → AuthorGate
      → AuthorDecision × AuthorGate
  unfolding looked_up
  answer lookup author (decided d) g = (d, g)
  answer lookup author (asking code owner) g =
      let (trusted, gate) = looked_up lookup author owner g in (or_deny code trusted, gate)

  -- `evaluate` with nothing else in between.
  unfoldable pub evaluate :
      Option (Option ProfileSnapshot)
      → String
      → ChannelType
      → AuthorGate
      → AuthorDecision × AuthorGate
  unfolding begin_evaluate answer
  evaluate lookup author channel g = answer lookup author (begin_evaluate author channel g) g

  -- What happens to a gate.
  pub data GateEvent : Type 0 where
    evaluated : Option (Option ProfileSnapshot) → String → ChannelType → GateEvent
    policy_updated : RespondToMode → List String → GateEvent

  unfoldable pub gate_step : GateEvent → AuthorGate → AuthorGate
  gate_step (evaluated lookup author channel) g = (evaluate lookup author channel g).1
  gate_step (policy_updated mode authors) g = update_policy mode authors g

  unfoldable pub gate_run : List GateEvent → AuthorGate → AuthorGate
  gate_run [] g = g
  gate_run (e ∷ es) g = gate_run es (gate_step e g)

-- `toChannelType`
unfoldable pub to_channel_type : Option String → ChannelType
to_channel_type none = unknown
to_channel_type (some value) =
    if value == "stream"
    then stream
    else if value == "private"
    then private_channel
    else if value == "dm"
    then dm
    else unknown
