-- ===== src/Wire.antt =====
-- The helpers that the wire contracts share, of `src/limitless_library/_service_support.py`.
pub mod Shape
pub mod Checks
pub mod NextAction
