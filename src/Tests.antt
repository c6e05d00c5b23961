-- ===== src/Tests.antt =====
-- Runs of the definitions, and the theorems at concrete inputs.
pub mod Samples
pub mod Workers
pub mod Runtime
mod Cli
mod Filter
mod Output
mod Walk
mod Parallel
mod App
mod Concurrent
mod Agrees
