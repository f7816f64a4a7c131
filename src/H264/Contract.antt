-- ===== src/H264/Contract.antt =====
-- What a selection promises: experiments/h264-profile-selection/selection.py.
pub mod Current
pub mod Proposed
pub mod Rejection
pub mod Agreement
