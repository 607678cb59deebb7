-- ===== src/Service.antt =====
-- The service facade, of `src/limitless_library/service_contracts.py`.
pub mod Shape
pub mod Roots
pub mod Context
pub mod Covers
