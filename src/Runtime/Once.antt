-- ===== src/Runtime/Once.antt =====
-- How often src/runtime/app-runtime.ts hands an event to an actor.
use autogent.Prelude.{
  ℕ, ◌+◌, ◌≤◌, ◌≡◌, refl, ap, inl, inr, String, Bool, true, false, ◌||◌, not, Option, none, some,
  List, [], ◌∷◌, arith, Bool-cases, if_cases, ◌==◌,
}
use autogent.JsMap
use autogent.Utf16.{Utf16}
use autogent.Nostr.{NostrEvent, channel_id_of}
use autogent.ChannelMetadata.{ChannelInfo}
use autogent.Gate.{ProfileSnapshot, begin_evaluate, answer}
use autogent.Control.{ControlCommand}
use autogent.Registry
use autogent.Registry.{ActorCall, submit_call, cancel_call, rotate_call, ChannelRegistry}
use autogent.State.Rows.{Db, completed}
use autogent.State.Table.{any}
use autogent.State.Inbox.{is_event, insert_if_absent, set_disposition}
use autogent.Runtime.{
  Waiting, gate_type, AppRuntime, Step, received, gated, channel_added, channel_removing,
  channel_released, channel_removed, policy_changed, heads_changed, recovering_at, phase_reached,
  profile_synced, stopping, drained, stopped_now, step, run, on_inbound_message, is_of, store_event,
  inbox_record, on_inserted, on_control_command, actors_drained, finish_stop, begin_channel_removed,
  release_channel, finish_channel_removed, drain_profile_sync, sync_profile, on_evaluated,
  gate_type, without, waiting_at, is_stopping, is_pre_live,
}
use autogent.Runtime.Rows.{
  submits, waits, stored, waits-append, forgotten, set_disposition-stored, apply_recovery-stored,
}
use autogent.Runtime.Moves.{
  total, Moves, Moves-refl, Moves-trans, quiet, begin_stop-Moves, control-Moves,
  channel_added-Moves, stored-bit, there-stored, bit, insert-stored, bit_of, MovesBy, Moves-by,
  taken-Moves, without-waits, on_decision-MovesBy,
}

module _ (verify : NostrEvent → Bool) (lower : Utf16 → Utf16)
    (schnorr : String → String → String → Bool) where
  on_inserted-Moves :
      (id : String) (c : Option ControlCommand) (now : ℕ) (event : NostrEvent)
      (channel : ChannelInfo) (r : AppRuntime) (db : Db)
      → stored id db ≡ stored id r.db + bit id event
      → Moves id r (on_inserted verify lower schnorr c now event channel (record r { db = db }))
  unfolding on_inserted total waits
  on_inserted-Moves id none now event channel r db h = (
    omega (
      arith,
      h,
      waits-append id r.waiting
          ((event, channel, begin_evaluate event.pubkey (gate_type channel) r.gate) ∷ []),
    ),
    omega (arith, h),
  )
  on_inserted-Moves id (some c) now event channel r db h =
      let s = record r { db = set_disposition event.id completed none db } in
      Moves-trans id r s (on_control_command now c channel.channel_id s)
        (
          omega (arith, h, set_disposition-stored id event.id completed none db),
          omega (arith, h, set_disposition-stored id event.id completed none db),
        )
        (control-Moves id now c channel.channel_id s)

  store_event-Moves :
      (id : String) (now : ℕ) (event : NostrEvent) (channel : ChannelInfo) (r : AppRuntime)
      → Moves id r (store_event verify lower schnorr now event channel r)
  unfolding store_event insert_if_absent inbox_record
  store_event-Moves id now event channel r =
      elim (Bool-cases (any (is_event event.id) r.db.inbox)) [
        | inl old ↦ rw old (Moves-refl id r)
        | inr new ↦ rw new (
            on_inserted-Moves id _ now event channel r _
              (insert-stored id (inbox_record now event channel.channel_id) r.db new))
      ]

  received-Moves :
      (id : String) (now : ℕ) (event : NostrEvent) (channel : ChannelInfo) (r : AppRuntime)
      → Moves id r (on_inbound_message verify lower schnorr now event channel r)
  unfolding on_inbound_message
  received-Moves id now event channel r =
      if_cases (Moves id r) (event.pubkey == r.agent_pubkey) (λ _. Moves-refl id r)
        (λ _.
          if_cases (Moves id r) (not (verify event)) (λ _. Moves-refl id r)
            (λ _.
              if_cases (Moves id r) (not (is_of (channel_id_of event) channel.channel_id))
                (λ _. Moves-refl id r) (λ _. store_event-Moves id now event channel r)))

  evaluated-MovesBy :
      (id : String) (now : ℕ) (lookup : Option (Option ProfileSnapshot)) (w : Option Waiting)
      (r : AppRuntime)
      → MovesBy id (bit_of id w) r (on_evaluated verify lower schnorr now lookup w r)
  unfolding on_evaluated total
  evaluated-MovesBy id now lookup none r = Moves-by id 0 r r (Moves-refl id r)
  evaluated-MovesBy id now lookup (some (event, channel, asked)) r =
      let decided = answer schnorr lookup event.pubkey asked r.gate in
      on_decision-MovesBy id decided.0 now event channel (record r { gate = decided.1 })

  gated-Moves :
      (id : String) (now : ℕ) (lookup : Option (Option ProfileSnapshot)) (n : ℕ) (r : AppRuntime)
      → Moves id r (
          on_evaluated verify lower schnorr now lookup
            (waiting_at n r.waiting)
            (record r { waiting = without n r.waiting }))
  gated-Moves id now lookup n r =
      let rest = record r { waiting = without n r.waiting } in
      taken-Moves id r rest
        (on_evaluated verify lower schnorr now lookup (waiting_at n r.waiting) rest)
        (bit_of id (waiting_at n r.waiting)) (without-waits id n r.waiting, (refl, refl))
        (evaluated-MovesBy id now lookup (waiting_at n r.waiting) rest)

  step-Moves :
      (id : String) (s : Step) (r : AppRuntime) → Moves id r (step verify lower schnorr s r)
  unfolding step release_channel Registry.release_removed begin_channel_removed
      finish_channel_removed actors_drained finish_stop drain_profile_sync sync_profile
      Registry.begin_remove Registry.finish_remove Registry.finish_close_all
  step-Moves id (received now event channel) r = received-Moves id now event channel r
  step-Moves id (gated now lookup n) r = gated-Moves id now lookup n r
  step-Moves id (channel_added channel) r = channel_added-Moves id channel r
  step-Moves id (channel_removing channel) r =
      quiet id r _ (forgotten id channel (JsMap.get channel r.registry.actors) r.registry)
        (omega arith) refl
  step-Moves id (channel_released channel) r = quiet id r _ (omega arith) (omega arith) refl
  step-Moves id (channel_removed true channel) r = quiet id r _ (omega arith) (omega arith) refl
  step-Moves id (channel_removed false channel) r = quiet id r _ (omega arith) (omega arith) refl
  step-Moves id (policy_changed mode authors) r = quiet id r _ (omega arith) (omega arith) refl
  step-Moves id (heads_changed core auth) r = quiet id r _ (omega arith) (omega arith) refl
  step-Moves id (recovering_at now) r =
      quiet id r _ (omega arith) (omega arith) (apply_recovery-stored id _ now r.db)
  step-Moves id (phase_reached phase) r = quiet id r _ (omega arith) (omega arith) refl
  step-Moves id (profile_synced ok) r =
      if_cases (λ (s : Bool × AppRuntime). Moves id r s.1)
        (not r.profile_dirty || is_pre_live r.phase || is_stopping r.phase) (λ _. Moves-refl id r)
        (λ _. quiet id r _ (omega arith) (omega arith) refl)
  step-Moves id (stopping reason) r = begin_stop-Moves id reason r
  step-Moves id drained r = quiet id r _ (omega arith) (omega arith) refl
  step-Moves id stopped_now r = quiet id r _ (omega arith) (omega arith) refl

  run-Moves :
      (id : String) (ss : List Step) (r : AppRuntime) → Moves id r (run verify lower schnorr ss r)
  unfolding run
  run-Moves id [] r = Moves-refl id r
  run-Moves id (s ∷ ss) r =
      Moves-trans id r (step verify lower schnorr s r) _ (step-Moves id s r)
        (run-Moves id ss (step verify lower schnorr s r))

  -- Whatever the relay sends, however often it repeats an event, and whenever the gate's answers, removals,
  -- recoveries and shutdowns come: from a state in which nothing was handed on yet, no event is
  -- submitted to an actor more than once, and one that was not stored is not submitted at all.
  pub submits_once :
      (id : String) (ss : List Step) (r : AppRuntime)
      → submits id r.registry.calls ≡ 0
      → r.waiting ≡ []
      → let s = run verify lower schnorr ss r in
        (submits id s.registry.calls ≤ 1) × (submits id s.registry.calls ≤ stored id s.db)
  unfolding total waits
  submits_once id ss r a b =
      let moves = run-Moves id ss r in
      let idle : waits id r.waiting ≡ 0 = ap (waits id) b in
      let one = stored-bit id (run verify lower schnorr ss r).db in
      (omega (arith, moves.0, a, idle, one), omega (arith, moves.0, a, idle))

  -- An event of the inbox whose handler is not running is never submitted again, whatever happens: not when
  -- the relay repeats it, and not after a recovery that has queued it again.
  pub stored_never_submitted :
      (id : String) (ss : List Step) (r : AppRuntime)
      → any (is_event id) r.db.inbox ≡ true
      → waits id r.waiting ≡ 0
      → submits id (run verify lower schnorr ss r).registry.calls ≤ submits id r.registry.calls
  unfolding total
  stored_never_submitted id ss r there idle =
      let moves = run-Moves id ss r in
      let one = stored-bit id (run verify lower schnorr ss r).db in
      let here = there-stored id r.db there in omega (arith, moves.0, moves.1, idle, one, here)
