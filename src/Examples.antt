-- ===== src/Examples.antt =====
-- The theorems at concrete inputs, and tests of the definitions.
pub mod Setup
pub mod Registers
pub mod Nodes
pub mod Tasks
pub mod Heartbeats
pub mod Modules
pub mod Ticks
pub mod Infos
pub mod Inquiries
pub mod Waits
pub mod Pointers
pub mod Programs
pub mod Tools
pub mod Dumps
pub mod Replies
pub mod Steady
