-- ===== src/Sm.antt =====
-- safecom/src/sm.c: the state machine of one connection.
pub mod Types
pub mod Checks
pub mod Transmit
pub mod Handlers
pub mod Running
pub mod Machine
pub mod Emit
pub mod Table
pub mod Runs
pub mod Blocks
pub mod Observe
pub mod Refine
pub mod Session
pub mod Accept
pub mod Orderly
pub mod Phases
pub mod Sequences
pub mod InOrder
pub mod Recovery
pub mod Handshake
pub mod Arrive
pub mod Link
pub mod Malformed
pub mod Bounded
pub mod Ranges
pub mod Delivery
pub mod Says
pub mod Talk
pub mod Conversation
pub mod Unopened
pub mod Reply
pub mod Farewell
pub mod Unverified
pub mod Loss
pub mod Connect
pub mod Sessions
pub mod Dialogue
pub mod Packets
pub mod Bringing
pub mod Channel
