-- ===== src/Install.antt =====
-- internal/install: how files are merged into the system.
pub mod Collision
pub mod Protect
