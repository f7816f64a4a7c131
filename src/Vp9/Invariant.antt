-- ===== src/Vp9/Invariant.antt =====
-- What every event keeps true of a session, whether its handler returns or raises.
pub mod Defs
pub mod Streams
pub mod Reqbufs
pub mod Queueing
pub mod Safe
pub mod References
pub mod Frames
pub mod Decode
pub mod Register
pub mod Run
pub use Defs.*
