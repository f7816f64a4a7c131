-- ===== src/Join.antt =====
-- experiments/hevc-reference-content/same-run/join.py: one client's observer result joined to the
-- kernel evidence of the same run.
pub mod Text
pub mod Evidence
pub mod Queues
pub mod Report
pub mod Select
pub mod Indexed
pub mod Bound
pub mod Ordinals
pub mod Frames
