-- ===== src/Vp9.antt =====
-- The queue and reference-state model of VP9 resize: experiments/vp9-state/model.py.
--
-- Buffer and session names are only compared, so they are natural numbers here; sizes, depths,
-- timestamps and indices are the unsigned ints that `validate_event` admits.
pub mod Layout
pub mod Reject
pub mod State
pub mod Event
pub mod Ops
pub mod Invariant
pub mod Contract
