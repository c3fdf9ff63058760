-- ===== src/Tests/Identities.antt =====
-- The theorems on threads, turns and logical ids at concrete inputs.
use autogent.Prelude.{◌≡◌, refl, ne_of_eqb, ◌⊎◌, [], ◌∷◌}
use autogent.LogicalId.{split_logical_id, logical_id}
use autogent.LogicalId.RoundTrip.{split_logical_id-logical_id}
use autogent.Thread.{canonical_thread_root}
use autogent.Thread.Roots.{Named, canonical_thread_root-Named}
use autogent.Turn.{create_turn_context}
use autogent.Turn.Identity.{IsTurnOf, with_steering_inputs, with_steering_inputs-IsTurnOf}
use autogent.Tests.Samples.{in_thread, event, turn_args}

split_logical_id-logical_id_example :
    split_logical_id (logical_id "turn-1" "message:7" 12)
    ≡ record { turn_id = "turn-1"; ordinal = 12 }
split_logical_id-logical_id_example =
    split_logical_id-logical_id "turn-1" "message:7" 12 (ne_of_eqb "turn-1" "" refl)
      (refl, (refl, (refl, (refl, (refl, (refl, tt))))))

canonical_thread_root-Named_example :
    (canonical_thread_root (event "first" in_thread) ≡ "first")
    ⊎ Named (canonical_thread_root (event "first" in_thread)) in_thread
canonical_thread_root-Named_example = canonical_thread_root-Named (event "first" in_thread)

with_steering_inputs-IsTurnOf_example : IsTurnOf turn_args (
    with_steering_inputs (create_turn_context turn_args) (
      (record { event_id = "second"; author_pubkey = "bob"; created_at = 102 })
      ∷ (record { event_id = "second"; author_pubkey = "bob"; created_at = 102 })
      ∷ []))
with_steering_inputs-IsTurnOf_example = with_steering_inputs-IsTurnOf turn_args (
    (record { event_id = "second"; author_pubkey = "bob"; created_at = 102 })
    ∷ (record { event_id = "second"; author_pubkey = "bob"; created_at = 102 })
    ∷ [])
