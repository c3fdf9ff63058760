-- ===== src/Actor.antt =====
-- src/runtime/channel-actor.ts: the mailbox of a channel and the turns that it runs.
pub mod Defs
pub mod Session
pub mod Turns
pub mod Handle
pub mod Frame
pub mod Start
pub mod Branches
pub mod Invariant
pub mod Stuck
pub mod Steering
pub mod Straggler
