-- ===== src/Hevc.antt =====
-- The HEVC reference checkers of experiments/hevc-avd-map and experiments/hevc-controls.
pub mod Record
pub mod Map
pub mod Trace
pub mod Agree
