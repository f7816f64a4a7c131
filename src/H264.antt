-- ===== src/H264.antt =====
-- VA-API profile selection for H.264: experiments/h264-profile-selection/selection.py.
--
-- The inventory's flags are Booleans, its slice types and profile names are data types, and its
-- other fields are unsigned ints, so the type tests of `_object` hold by typing and its bounds are
-- tested here.
pub mod Inventory
pub mod Checks
pub mod Select
pub mod Contract
pub mod Fixture
