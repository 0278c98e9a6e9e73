-- ===== src/Examples.antt =====
-- The theorems at concrete inputs.
pub mod Setup
pub mod Hooks
pub mod Launches
pub mod Messages
pub mod Replies
pub mod Sockets
pub mod Memories
pub mod Symbols
pub mod Shared
pub mod Kernels
pub mod Calls
pub mod Modules
pub mod Servers
pub mod Runtimes
