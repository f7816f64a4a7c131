-- ===== src/Queue.antt =====
-- FakeQueue of experiments/hevc-reference-content/synthetic_queue.py: the fields of the object and
-- its methods. Every method holds the condition's lock from its first statement to its return, so a
-- call is one step of the state; only `drain` gives the lock up, in `condition.wait`.
--
-- Identities, generations, jobs and tokens are non-negative ints, so they are naturals here, and
-- the tests `type(x) is int and x >= 0` of `allocate` hold by typing. A plane's bytes are a list.
-- `notify_all` wakes waiters and changes no field.
pub mod Defs
pub mod Schedule
pub mod Invariant
pub mod Completion
pub mod Retention
pub mod Pins
pub mod Drain
pub use Defs.*
