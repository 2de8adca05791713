-- ===== src/Inspect.antt =====
-- fq/inspect_types.py: the INSPECT report and its decoding from JSON.
pub mod Json
pub mod Report
pub mod Decode
pub mod Shape
pub mod Known
pub mod Render
pub mod Outcome
