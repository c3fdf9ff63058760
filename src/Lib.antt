-- ===== src/Lib.antt =====
-- autogent: a chat agent that answers in the channels of a Nostr relay. This library models the part
-- that decides what is answered, in which order, and what survives a crash.
--
-- The agent subscribes to the channels that it is a member of (src/nostr/memberships.ts: Memberships), with
-- the requests and the dedup of src/nostr/subscriptions.ts (Subscriptions). An event that comes in goes
-- through src/runtime/app-runtime.ts (Runtime): it is stored in the inbox, taken for an owner's control
-- (src/security/control-commands.ts: Control) or passes the author gate (src/security/author-gate.ts: Gate,
-- with the attestations of src/nostr/nip-oa.ts in Attestation) and is posted to its channel's actor
-- (src/runtime/channel-registry.ts: Registry, src/runtime/channel-actor.ts: Actor). The actor finds the event's conversation
-- (src/runtime/conversation-key.ts: Thread) and starts a turn, steers the running one or queues the
-- event. A turn's identity is fixed by src/runtime/turn-context.ts (Turn); how many channels run one is
-- bounded by src/runtime/scheduler.ts (Semaphore). What Pi says becomes outputs by
-- src/runtime/output-router.ts (Output, with the logical ids of LogicalId), which are stored by the
-- repositories of src/state/ (State) and sent by src/nostr/publisher.ts (Publisher). After a crash
-- src/state/recovery.ts (Recovery) plans from the same tables. Utf16 and Nostr are the texts and events of
-- src/nostr/types.ts, Exec is a method that changes state and may throw, with the transaction of
-- src/state/database.ts, JsMap a `Map` with texts as keys. src/runtime/inactivity.ts (Inactivity) ends an idle
-- process, and src/telemetry/telemetry-buffer.ts (TelemetryBuffer) stands before the observer. Tests holds the concrete runs.
--
-- The correspondence:
--   Semaphore: `create`, `acquire`, `set_permits`, `release` are the constructor, `acquire`, `setPermits`
--     and the closure that `#release` makes; a call of `acquire` is named by a ticket.
--   Turn: `create_turn_context`, `with_steering_input`. Thread: `parse_thread_tags`,
--     `canonical_thread_root`, `conversation_key`.
--   State: Rows holds the records of src/runtime/ports.ts and `Db` the tables of src/state/migrations.ts
--     as lists of rows; Table is SELECT, UPDATE and DELETE; Inbox, Turns and Outbox have one function for
--     each method of their repository. A constraint that a write breaks is the error
--     `constraint_failed`.
--   Output: Split is `splitMessage`, Router is the class, `record_output` its method `record`.
--   Publisher: `order_for_publish`, `drain_once`, with a relay that answers, as `publish` of
--     src/nostr/relay-supervisor.ts catches what it throws. Recovery: `plan_recovery`, `apply_recovery`.
--   Gate: `begin_evaluate` is `evaluate` until its caller awaits, `answer` the rest; `is_owner_or_sibling`,
--     `update_policy`; Attestation: `extract_auth_tag`,
--     `verify_attestation`.
--   Actor: Defs is the state, Session is `#ensureSession` and the watermarks, Turns is `#startTurn`,
--     `#steer`, `#settle` and `#dispatchQueued`, Handle is `#onInbound`, `#onPiEvent`, `#onCancel`,
--     `#onRotate`, `#onClose`, `#post` and `#pump`.
--
--   ChannelMetadata: `parse_channel_metadata`. Memberships: `on_discovered`,
--     `on_membership_notification`, `on_granted`, `resolve_type` and `stop` are the
--     methods, with a method that awaits the relay in two steps. Subscriptions: `admit`, `since`,
--     `note_delivered`, `note_dropped`, `deliver`.
--   Control: `strip_edge_mentions`, `parse_control_command`. Registry: `add`, `submit`, `remove` as
--     `begin_remove`, `release_removed` and `finish_remove`, `closeAll` as `begin_close_all` and `finish_close_all`.
--   Runtime: `on_inbound_message` and `on_evaluated` are `#onInboundMessage` before and after the wait for the
--     gate, `begin_stop`, `actors_drained` and `finish_stop` are `stop`.
--   State.Channels: one function for each method of both repositories of src/state/channel-repository.ts.
--   Inactivity: `arm`, `note_activity`, `check`, `stop`. TelemetryBuffer: `pump`, `enqueue`; its Calls are
--     `push`, `flush`, `stop`, `forget_turn` and the timers.
--
-- What is outside is a parameter: the clock, the signer, the relay's answers, the profile lookup, the
-- signature scheme, and the session registry, Pi and the history, whose answers to one message are an
-- `Env`. A message is handled to its end before the next one, as the pump awaits it; posts come
-- in between in any order.
--
-- Fuel: the digits of a number are written on fuel one above the number; a message is split on fuel
-- one above its length, as a round takes a unit at least where three bytes fit, and
-- `split_message` is `none` where it runs out; the
-- pump of the telemetry buffer has fuel for two rounds, and a report is made in the first at most. Every other loop is structural.
--
-- Not modelled: prompt formatting, the JSON of telemetry frames, JSON columns (a column holds its value),
-- logs, timers other than those of the inactivity exit and the telemetry buffer (the idle watch is a
-- function of the clock), the runtime's boot, deadlines, remote records and control frames, the relay's
-- socket, the session registry, provisioning, backends and command lines. Numbers are unbounded; times
-- and counts in the source are JavaScript numbers far below 2^53.
pub mod Prelude
pub mod Exec
pub mod Utf16
pub mod Nostr
pub mod State
pub mod Subscriptions
pub mod ChannelMetadata
pub mod Memberships
pub mod Runtime
pub mod TelemetryBuffer
pub mod Inactivity
pub mod Registry
pub mod LogicalId
pub mod Thread
pub mod Turn
pub mod Output
pub mod Publisher
pub mod Recovery
pub mod Attestation
pub mod Gate
pub mod Control
pub mod JsMap
pub mod Actor
pub mod Semaphore
pub mod Tests
