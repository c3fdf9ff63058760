-- ===== src/Tests/Gates.antt =====
-- The theorem on the author gate at a concrete history.
use autogent.Prelude.{◌≢◌, refl, String, Bool, false, none, some, List, [], ◌∷◌, ◌++◌}
use autogent.Gate.{
  dm, unknown, stream, anyone, owner_only, AuthorGateOptions, create_author_gate, evaluate,
  begin_evaluate, answer, looked_up, evaluated, policy_updated, gate_run, gate_step, update_policy,
  is_owner_or_sibling, trusted_by, unless_trusted, GateEvent, cached, verify_sibling_profile,
  cache_sibling,
}
use autogent.Turn.{includes}
use autogent.Gate.Trust.{Admitted}
use autogent.Gate.Admission.{Attested, policy_after, evaluate_admits}

abbrev no_signature : String → String → String → Bool
no_signature _ _ _ = false

abbrev options : AuthorGateOptions
options = record {
  agent_pubkey = "agent";
  owner_pubkey = some "owner";
  respond_to = owner_only;
  allowed_authors = [];
  sibling_agents = "sibling" ∷ [];
  cache_cap = 256;
}

abbrev history : List (GateEvent no_signature)
history = evaluated (some none) "stranger" stream ∷ policy_updated anyone [] ∷ []

evaluate_admits_example :
    Admitted
      (Attested no_signature (history ++ evaluated none "sibling" dm ∷ []) "owner" "sibling")
      ((dm ≢ dm) × (dm ≢ unknown))
      "agent"
      ("sibling" ∷ [])
      "owner"
      (policy_after no_signature history (owner_only, []))
      "sibling"
unfolding create_author_gate evaluate begin_evaluate answer looked_up gate_run gate_step
    update_policy is_owner_or_sibling trusted_by unless_trusted includes cached
    verify_sibling_profile cache_sibling
evaluate_admits_example =
    evaluate_admits no_signature options "owner" history none "sibling" dm refl refl
