-- ===== src/Sm/Refine.antt =====
-- The state machine (safecom/src/sm.c) refines its transition table.
pub mod Compose
pub mod Opening
pub mod Running
pub mod Machine
