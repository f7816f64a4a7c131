-- ===== src/Vp9/Contract.antt =====
-- What the operations of the session and its layouts promise.
pub mod Layout
pub mod References
pub mod Failure
pub mod Reports
pub mod Slots
