-- ===== src/Tests/Channels.antt =====
-- The theorems on the channel actor at concrete runs.
use autogent.Prelude.{◌≡◌, refl, ◌⊎◌, [], ◌∷◌, ne_of_eqb}
use autogent.Exec.{err, constraint_failed}
use autogent.State.Table.{any}
use autogent.Thread.{canonical_thread_root, conversation_key}
use autogent.Turn.{create_turn_context}
use autogent.State.Turns.{add_input}
use autogent.Actor.Turns.{steer_turn, store_steer}
use autogent.Actor.Defs.{cancel, pi, agent_settled, inbound, rotate, create}
use autogent.Actor.Handle.{posted, pumped, run, on_inbound, deliver}
use autogent.Actor.Invariant.{IsConsistent, run-IsConsistent}
use autogent.Actor.Stuck.{
  IsStranded, message, rotated, cancelled, requests, Wedged, failed_start_strands,
  rotate_with_queue_wedges,
}
use autogent.Actor.Straggler.{Spares, straggler_keeps_next}
use autogent.Actor.Steering.{rejected_steer_blocks_next}
use autogent.Tests.Samples.{accepted, deps, env, offline, db, session, active_turn, flying, crowded}

run-IsConsistent_example :
    IsConsistent
      (run deps
        (posted (inbound (accepted "second")) ∷ pumped env ∷ posted rotate ∷ pumped env ∷ [])
        (record { actor = create db; mailbox = [] })).actor
run-IsConsistent_example =
    run-IsConsistent deps db
      (posted (inbound (accepted "second")) ∷ pumped env ∷ posted rotate ∷ pumped env ∷ [])

failed_start_strands_example :
    let b =
      requests deps
        (λ _. env)
        (message (accepted "third") ∷ rotated ∷ [])
        (deliver deps offline (inbound (accepted "second")) (create db)) in
    IsStranded b × (b.queue ≡ accepted "third" ∷ [])
unfolding create
failed_start_strands_example =
    failed_start_strands deps offline (accepted "second") (create db) (λ _. env)
      (message (accepted "third") ∷ rotated ∷ []) refl refl refl refl

rotate_with_queue_wedges_example :
    let b =
      requests deps
        (λ _. env)
        (message (accepted "third") ∷ cancelled "user" ∷ [])
        (deliver deps env rotate crowded) in
    Wedged deps env (accepted "second") b × (b.queue ≡ accepted "third" ∷ [])
rotate_with_queue_wedges_example =
    rotate_with_queue_wedges deps env active_turn session (accepted "second") [] crowded (λ _. env)
      (message (accepted "third") ∷ cancelled "user" ∷ []) refl refl refl

straggler_keeps_next_example :
    let b = deliver deps env (cancel "user") crowded in
    let c = deliver deps env (pi agent_settled) b in
    (Spares deps env (accepted "second") b c × (c.queue ≡ []) × (c.stale_settles ≡ 0))
    ⊎ IsStranded b
straggler_keeps_next_example =
    straggler_keeps_next deps env env "user" active_turn session (accepted "second") [] crowded refl
      refl refl

rejected_steer_blocks_next_example :
    ((on_inbound deps env (accepted "second") flying).1.queue ≡ accepted "second" ∷ [])
    × (on_inbound deps env (accepted "third") (on_inbound deps env (accepted "second") flying).1
        ≡ (err constraint_failed, (on_inbound deps env (accepted "second") flying).1))
unfolding canonical_thread_root any on_inbound create_turn_context conversation_key steer_turn
    store_steer add_input
rejected_steer_blocks_next_example =
    rejected_steer_blocks_next deps env env (accepted "second") (accepted "third") active_turn
      session flying refl refl refl refl refl refl refl (ne_of_eqb "second" "third" refl) refl refl
