-- ===== src/Vp9/Ops.antt =====
-- The handlers of Session, and `apply`.
pub mod Streams
pub mod Queueing
pub mod References
pub mod Frames
pub mod Apply
