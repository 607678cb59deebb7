-- ===== src/Receiver.antt =====
-- The receiver's file tree, as far as `contracts.py` and `installer.py` read and write it.
pub mod Tree
pub mod Grown
pub mod Paths
