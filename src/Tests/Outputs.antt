-- ===== src/Tests/Outputs.antt =====
-- The theorems on the output router at a concrete message.
use autogent.Prelude.{◌≤◌, ◌≡◌, refl, some, List, [], ◌∷◌, All, arith}
use autogent.Utf16.{Utf16, byte_length, is_blank}
use autogent.Exec.{Result, ok}
use autogent.Output.Router.{
  OutputState, RecordedOutput, record_output, intent_of, build_reply_tags, apply_oversize_policy,
}
use autogent.State.Outbox.{put_intent}
use autogent.State.Table.{any}
use autogent.Turn.{create_turn_context}
use autogent.Output.Router.Again.{record_output_again}
use autogent.Tests.Samples.{db, deps, active_turn}
use autogent.Output.Split.{split_message}
use autogent.Output.Split.Bounds.{split_message_bounded}

-- "aa bb 😀"
abbrev greeting : Utf16
greeting = 97 ∷ 97 ∷ 32 ∷ 98 ∷ 98 ∷ 32 ∷ 0xd83d ∷ 0xde00 ∷ []

split_message_bounded_example :
    (chunks : List Utf16) × (split_message greeting 5 ≡ some chunks)
    × All (λ c. byte_length c ≤ 5) chunks
split_message_bounded_example = split_message_bounded greeting 5 (omega arith)

abbrev router : OutputState
router = record { db = db; ordinals = []; notified = 0 }

abbrev recorded : Result (List RecordedOutput) × OutputState
recorded = record_output deps.build 200 deps.output active_turn.context "message-2" greeting router

-- The process has restarted: the ordinals are lost, the tables are not.
abbrev restarted : OutputState
restarted = record router { db = recorded.1.db }

record_output_again_example :
    let again =
      record_output deps.build 300 deps.output active_turn.context "message-2" greeting restarted in
    (again.0 ≡ ok []) × (again.1.db ≡ restarted.db) × (again.1.notified ≡ restarted.notified)
unfolding record_output is_blank apply_oversize_policy byte_length put_intent any
    create_turn_context
record_output_again_example =
    record_output_again deps.build deps.build 200 300 deps.output active_turn.context "message-2"
      greeting router restarted
      ((record {
        intent = intent_of deps.build 200 active_turn.context "message-2" 0 greeting 0;
        event =
            deps.build (record {
              kind = 9;
              content = greeting;
              tags = build_reply_tags active_turn.context;
            });
      })
        ∷ [])
      refl refl
