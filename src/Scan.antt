-- ===== src/Scan.antt =====
-- The VP9 sub-64 scanner: tests/vp9-sub64-scan.py.
--
-- A file's bytes are a list of numbers below 256. A ValueError is an error value that names its
-- message; file access, the report's JSON and the command line are left out.
pub mod Header
pub mod Verdict
pub mod Container
pub mod Contract
