-- ===== src/State.antt =====
-- internal/state: the installed packages, their database, and package sets.
pub mod Installed
pub mod Database
pub mod Sets
