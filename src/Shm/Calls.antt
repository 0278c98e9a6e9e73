-- ===== src/Shm/Calls.antt =====
-- The protocol of a CommandBuffer between a client that pushes and reads the results, and a host
-- that pulls, stores results and finishes: every interleaving of their steps.
pub mod Steps
pub mod Invariant
pub mod Agreement
pub mod Progress
