-- ===== src/Tests.antt =====
-- Tests, and the theorems at concrete inputs.
mod Bundles
mod Catalogs
mod Frames
mod Identities
mod Kits
mod Ranges
mod Roots
mod Installs
mod Receivers
mod Sessions
mod Actions
