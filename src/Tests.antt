-- ===== src/Tests.antt =====
-- The theorems at concrete inputs.
pub mod Sample
mod Queues
mod Mapping
mod System
mod Scheduling
mod Controller
mod Clocks
mod Cycle
mod Turns
mod CasFirst
mod Marks
