-- ===== src/Gpu.antt =====
-- The host side, class GPUInstance of interception/gpu_instance.h and gpu_instance.cpp: one remote
-- call from the bytes of the request to the bytes of the reply.
pub mod Params
pub mod Signatures
pub mod Instance
pub mod Handlers
pub mod Runtime
pub mod Chain
pub mod Stale
pub mod Shadowed
pub mod HostMemory
pub mod Life
