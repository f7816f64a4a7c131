-- ===== src/Hevc/Trace.antt =====
-- experiments/hevc-controls/normalize.py.
pub mod Event
pub mod State
pub mod Requests
pub mod Buffers
pub mod Steps
pub mod Flags
pub mod Slices
pub mod Emit
pub mod Associate
pub mod Changes
pub mod Numbered
pub mod Consistent
pub mod Matched
