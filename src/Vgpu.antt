-- ===== src/Vgpu.antt =====
-- The two classes VirtualGPU of interception/stream.h: a window of memory through which the data of
-- a copy passes between guest and host.
pub mod Mapped
pub mod Growing
