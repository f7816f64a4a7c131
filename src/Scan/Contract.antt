-- ===== src/Scan/Contract.antt =====
-- What the scan promises: tests/vp9-sub64-scan.py.
pub mod Container
pub mod Geometry
pub mod Verdict
