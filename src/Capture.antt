-- ===== src/Capture.antt =====
-- experiments/hevc-avd-trace/check.py: the strict reader of a kernel snapshot.
pub mod Rows
pub mod Checker
pub mod Framed
pub mod Groups
pub mod Validate
pub mod Preserved
pub mod Silent
pub mod Writers
pub mod Quiet
pub mod Current
pub mod Recorded
pub mod Read
