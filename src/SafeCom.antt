-- ===== src/SafeCom.antt =====
-- The module's entry points over the state machines of its connections.
pub mod Types
pub mod Impl
pub mod Entry
pub mod Instances
pub mod Array
pub mod Init
pub mod SendData
pub mod Interface
pub mod Once
pub mod Close
pub mod Shared
pub mod Waiting
pub mod Calls
pub mod Speaks
pub mod Proper
pub mod Usable
pub mod Usage
pub mod Ordered
pub mod Numbers
