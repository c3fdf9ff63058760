-- ===== src/Runtime.antt =====
-- src/runtime/app-runtime.ts: the way of an event from the relay to its channel's actor, and the
-- shutdown. The check of a signature and `toLowerCase` are parameters, as are the answers of the profile
-- lookup, the clock's readings and Schnorr's verification. A handler that awaits the author gate is two
-- steps; the handlers that wait are kept in `waiting`, with what the gate read when it was asked.
pub mod Rows
pub mod Moves
pub mod Once
pub mod Trusted
pub mod Vouched
use autogent.Prelude.{
  ℕ, zero, suc, String, Bool, true, false, ◌&&◌, ◌||◌, not, Option, none, some, List, [], ◌∷◌, ◌++◌,
  ◌==◌, if◌then◌else◌,
}
use autogent.Utf16.{Utf16}
use autogent.Nostr.{NostrEvent, channel_id_of}
use autogent.ChannelMetadata.{ChannelInfo}
use autogent.ChannelMetadata
use autogent.Gate
use autogent.Gate.{AuthorGate, AuthorDecision, ProfileSnapshot, Evaluation, begin_evaluate, answer}
use autogent.Control.{ControlCommand, cancel, shutdown, rotate, parse_control_command}
use autogent.Registry
use autogent.Registry.{ChannelRegistry, ChannelDescriptor}
use autogent.State.Channels.{set_last_seen}
use autogent.State.Rows.{Db, InboxRecord, queued, completed, rejected}
use autogent.State.Inbox.{insert_if_absent, set_disposition}
use autogent.Thread.{canonical_thread_root}
use autogent.Recovery.{default_max_publish_attempts, plan_recovery, apply_recovery}

pub data RuntimePhase : Type 0 where
  boot connecting reconciling subscribing recovering running draining stopped : RuntimePhase

-- A handler that awaits the gate, with what the gate had come to when it was asked.
abbrev pub Waiting : Type 0
Waiting = NostrEvent × ChannelInfo × Evaluation

-- `registry` holds the table of channels, `db` the other tables.
pub record AppRuntime : Type 0 where
  pub agent_pubkey : String
  pub owner_pubkey : String
  pub agent_name : Utf16
  pub relay_id : String
  pub db : Db
  pub registry : ChannelRegistry
  pub gate : AuthorGate
  pub phase : RuntimePhase
  pub stop_reason : Option String
  pub missing_core : Bool
  pub missing_provider_auth : Bool
  pub last_activity : ℕ
  pub profile_dirty : Bool
  pub waiting : List Waiting

unfoldable pub degraded : AppRuntime → Bool
degraded r = r.missing_core || r.missing_provider_auth

-- PRE_LIVE_PHASES
unfoldable pub is_pre_live : RuntimePhase → Bool
is_pre_live boot = true
is_pre_live connecting = true
is_pre_live reconciling = true
is_pre_live subscribing = true
is_pre_live _ = false

unfoldable pub is_stopping : RuntimePhase → Bool
is_stopping draining = true
is_stopping stopped = true
is_stopping _ = false

-- `stop` up to the wait for the actors; the monitor, the watcher and the subscriptions that it stops
-- are other components.
unfoldable pub begin_stop : String → AppRuntime → AppRuntime
unfolding is_stopping
begin_stop reason r = if is_stopping r.phase then r else record r {
  phase = draining;
  stop_reason = some reason;
  registry = Registry.begin_close_all r.registry;
}

-- `closeAll` is done, within the drain budget or after the second try.
unfoldable pub actors_drained : AppRuntime → AppRuntime
actors_drained r = record r { registry = Registry.finish_close_all r.registry }

-- The end of `stop`: the sessions, the relay and the database are closed, and nothing runs after it.
unfoldable pub finish_stop : AppRuntime → AppRuntime
finish_stop r = record r { phase = stopped }

-- `#syncProfile`: what is marked is published by a later `#drainProfileSync`.
unfoldable pub sync_profile : AppRuntime → AppRuntime
sync_profile r = record r { profile_dirty = true }

-- `#drainProfileSync`, with whether the publication succeeded; the result says whether it was tried.
unfoldable pub drain_profile_sync : Bool → AppRuntime → Bool × AppRuntime
unfolding is_pre_live is_stopping
drain_profile_sync ok r =
    if not r.profile_dirty || is_pre_live r.phase || is_stopping r.phase
    then (false, r)
    else (true, record r { profile_dirty = not ok })

unfoldable pub on_control_command : ℕ → ControlCommand → String → AppRuntime → AppRuntime
unfolding begin_stop
on_control_command now cancel id r = record r {
  last_activity = now;
  registry = Registry.cancel id "owner_cancel" r.registry;
}
on_control_command now rotate id r = record r {
  last_activity = now;
  registry = Registry.rotate id r.registry;
}
on_control_command now shutdown id r =
    begin_stop "owner_shutdown" (record r { last_activity = now })

descriptor_of : ChannelInfo → ChannelDescriptor
descriptor_of channel = record {
  channel_id = channel.channel_id;
  name = channel.name;
  channel_type = channel.type;
}

unfoldable pub on_channel_added : ChannelInfo → AppRuntime → AppRuntime
unfolding descriptor_of sync_profile
on_channel_added channel r =
    let added = record r { registry = Registry.add (descriptor_of channel) r.registry } in
    if Registry.has channel.channel_id r.registry then added else sync_profile added

-- `#onChannelRemoved` around the wait for the actor's close.
unfoldable pub begin_channel_removed : String → AppRuntime → AppRuntime
begin_channel_removed id r = record r { registry = (Registry.begin_remove id r.registry).1 }

-- The sessions of a channel whose actor closed are given back.
unfoldable pub release_channel : String → AppRuntime → AppRuntime
release_channel id r = record r { registry = Registry.release_removed id r.registry }

-- Where there was no actor, there was nothing to wait for.
unfoldable pub finish_channel_removed : Bool → String → AppRuntime → AppRuntime
unfolding sync_profile
finish_channel_removed there id r =
    sync_profile (if there then record r { registry = Registry.finish_remove id r.registry } else r)

unfoldable pub inbox_record : ℕ → NostrEvent → String → InboxRecord
inbox_record now event id = record {
  event_id = event.id;
  channel_id = id;
  thread_root_id = canonical_thread_root event;
  author_pubkey = event.pubkey;
  created_at = event.created_at;
  received_at = now;
  disposition = queued;
  turn_id = none;
  input_ordinal = none;
  raw_event = event;
}

-- The channel's type as the gate takes it.
unfoldable pub gate_type : ChannelInfo → Gate.ChannelType
gate_type channel =
    if channel.metadata_known
    then elim channel.type [
      | ChannelMetadata.stream ↦ Gate.stream
      | ChannelMetadata.private_channel ↦ Gate.private_channel
      | ChannelMetadata.dm ↦ Gate.dm
    ]
    else Gate.unknown

-- `if (!this.#registry.has(channelId)) this.#onChannelAdded(channel)`
unfoldable pub ensure_channel : ChannelInfo → AppRuntime → AppRuntime
unfolding on_channel_added
ensure_channel channel r =
    if Registry.has channel.channel_id r.registry then r else on_channel_added channel r

unfoldable pub submit_to : ℕ → NostrEvent → String → AppRuntime → AppRuntime
submit_to now event id r =
    let rows = set_last_seen r.relay_id id event.created_at r.registry.rows in
    record r {
      last_activity = now;
      registry = (Registry.submit id event (record r.registry { rows = rows })).1;
    }

-- The end of the handler, for an event that passed.
unfoldable pub pass_on : ℕ → NostrEvent → ChannelInfo → AppRuntime → AppRuntime
unfolding ensure_channel submit_to
pass_on now event channel r = submit_to now event channel.channel_id (ensure_channel channel r)

unfoldable pub reject : NostrEvent → AppRuntime → AppRuntime
reject event r = record r { db = set_disposition event.id rejected none r.db }

-- The handlers that wait, without one of them.
unfoldable pub without : ℕ → List Waiting → List Waiting
without n [] = []
without zero (w ∷ ws) = ws
without (suc n) (w ∷ ws) = w ∷ without n ws

unfoldable pub waiting_at : ℕ → List Waiting → Option Waiting
waiting_at n [] = none
waiting_at zero (w ∷ ws) = some w
waiting_at (suc n) (w ∷ ws) = waiting_at n ws

-- `!channelId || channelId !== channel.channelId`
unfoldable pub is_of : Option String → String → Bool
is_of none id = false
is_of (some tag) id = not (tag == "") && tag == id

unfoldable pub on_decision : AuthorDecision → ℕ → NostrEvent → ChannelInfo → AppRuntime → AppRuntime
unfolding reject degraded pass_on
on_decision decision now event channel r =
    if not decision.allowed
    then reject event r
    else if degraded r
    then reject event r
    else pass_on now event channel r

-- What happens to the runtime.
pub data Step : Type 0 where
  received : ℕ → NostrEvent → ChannelInfo → Step
  gated : ℕ → Option (Option ProfileSnapshot) → ℕ → Step
  channel_added : ChannelInfo → Step
  channel_removing : String → Step
  channel_released : String → Step
  channel_removed : Bool → String → Step
  policy_changed : Gate.RespondToMode → List String → Step
  heads_changed : Bool → Bool → Step
  recovering_at : ℕ → Step
  phase_reached : RuntimePhase → Step
  profile_synced : Bool → Step
  stopping : String → Step
  drained : Step
  stopped_now : Step

module _ (verify_nostr_event : NostrEvent → Bool) (lower : Utf16 → Utf16)
    (schnorr_verify : String → String → String → Bool) where
  -- An event that was not in the inbox is a control or goes to the gate.
  unfoldable pub on_inserted :
      Option ControlCommand → ℕ → NostrEvent → ChannelInfo → AppRuntime → AppRuntime
  unfolding on_control_command gate_type
  on_inserted none now event channel r = record r {
    waiting =
        r.waiting ++ (event, channel, begin_evaluate event.pubkey (gate_type channel) r.gate) ∷ [];
  }
  on_inserted (some command) now event channel r =
      on_control_command now command channel.channel_id
        (record r { db = set_disposition event.id completed none r.db })

  unfoldable pub store_event : ℕ → NostrEvent → ChannelInfo → AppRuntime → AppRuntime
  unfolding on_inserted inbox_record
  store_event now event channel r =
      let (db, inserted) = insert_if_absent (inbox_record now event channel.channel_id) r.db in
      let control =
        parse_control_command lower event r.agent_pubkey (some r.owner_pubkey)
          (some r.agent_name) in
      if inserted then on_inserted control now event channel (record r { db = db }) else r

  -- `#onInboundMessage` up to the wait for the gate.
  unfoldable pub on_inbound_message : ℕ → NostrEvent → ChannelInfo → AppRuntime → AppRuntime
  unfolding store_event is_of
  on_inbound_message now event channel r =
      if event.pubkey == r.agent_pubkey
      then r
      else if not (verify_nostr_event event)
      then r
      else if not (is_of (channel_id_of event) channel.channel_id)
      then r
      else store_event now event channel r

  -- The rest of the handler of a waiting event, with the answer of the profile lookup.
  unfoldable pub on_evaluated :
      ℕ → Option (Option ProfileSnapshot) → Option Waiting → AppRuntime → AppRuntime
  unfolding on_decision
  on_evaluated now lookup none r = r
  on_evaluated now lookup (some (event, channel, evaluation)) r =
      let (decision, gate) = answer schnorr_verify lookup event.pubkey evaluation r.gate in
      on_decision decision now event channel (record r { gate = gate })

  unfoldable pub step : Step → AppRuntime → AppRuntime
  unfolding on_inbound_message on_evaluated on_channel_added drain_profile_sync begin_stop
  step (received now event channel) r = on_inbound_message now event channel r
  step (gated now lookup n) r =
      on_evaluated now lookup (waiting_at n r.waiting) (record r { waiting = without n r.waiting })
  step (channel_added channel) r = on_channel_added channel r
  step (channel_removing id) r = begin_channel_removed id r
  step (channel_released id) r = release_channel id r
  step (channel_removed there id) r = finish_channel_removed there id r
  step (policy_changed mode authors) r = record r { gate = Gate.update_policy mode authors r.gate }
  step (heads_changed core auth) r = record r { missing_core = core; missing_provider_auth = auth }
  step (recovering_at now) r = record r {
    db = apply_recovery (plan_recovery default_max_publish_attempts now r.db) now r.db;
  }
  step (phase_reached phase) r = record r { phase = phase }
  step (profile_synced ok) r = (drain_profile_sync ok r).1
  step (stopping reason) r = begin_stop reason r
  step drained r = actors_drained r
  step stopped_now r = finish_stop r

  unfoldable pub run : List Step → AppRuntime → AppRuntime
  run [] r = r
  run (s ∷ ss) r = run ss (step s r)
