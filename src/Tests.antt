-- ===== src/Tests.antt =====
-- Concrete inputs: each theorem of the results at an input that meets its hypotheses, and runs.
mod Fixtures
mod Wire
mod Connection
mod Interface
mod Instances
mod Sessions
mod Frames
mod Peers
mod Channel
mod Callbacks
