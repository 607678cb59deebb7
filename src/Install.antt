-- ===== src/Install.antt =====
-- Exact-byte installation, `src/limitless_library/installer.py`.
pub mod Transaction
pub mod RollBack
pub mod Recipe
pub mod Adopt
pub mod Outcomes
pub mod Success
pub mod Leaks
