-- ===== src/Interlace.antt =====
-- The H.264 interlace scanner: tests/h264-interlace-scan.py.
--
-- Bytes are numbers below 256. An IndexError, a KeyError and a ValueError are caught alike, so they
-- are one exception here; directory walking, the report's JSON and the command line are left out.
pub mod Reader
pub mod Params
pub mod Classify
pub mod Contract
