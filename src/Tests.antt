-- ===== src/Tests.antt =====
-- Concrete inputs, and the theorems applied at them.
pub mod Samples
mod Channels
mod Gates
mod Stores
mod Identities
mod Inboxes
mod Outputs
mod Relays
mod Runtimes
mod Frames
