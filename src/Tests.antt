-- ===== src/Tests.antt =====
-- Runs of the models on concrete inputs.
mod Queue
mod Vp9
mod Nal
mod H264
mod Scan
mod Interlace
mod Hevc
mod Join
mod Capture
