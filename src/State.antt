-- ===== src/State.antt =====
-- src/state/: the agent's durable state and what recovery plans from it.
pub mod Table
pub mod Rows
pub mod Order
pub mod Inbox
pub mod Turns
pub mod Outbox
pub mod Channels
