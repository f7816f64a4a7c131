-- ===== src/Hevc/Map.antt =====
-- experiments/hevc-avd-map/model.py.
pub mod Words
pub mod Lookup
pub mod Motion
pub mod Steps
pub mod History
pub mod Refines
pub mod Lowest
