-- ===== src/Shm.antt =====
-- interception/shared_memory_manager.h: the System V segments that guest and host share, and the
-- command buffer that two semaphores guard.
pub mod Scalars
pub mod Text
pub mod Device
pub mod Buffer
pub mod Calls
