-- ===== src/Nal.antt =====
-- Annex B streams, and the payloads and identities of parameter sets: experiments/hevc-parameter-sets/hevcnal.py.
--
-- A byte string is a list of numbers below 256, a bit list a list of numbers below 2, and an
-- AssertionError, an IndexError and a ValueError are the errors of the model.
pub mod Stream
pub mod Escape
pub mod Reader
pub mod Digits
pub mod Sets
pub mod Payload
pub mod ReadBack
pub mod Relocate
pub mod Edit
pub mod Identities
pub mod Split
