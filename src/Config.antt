-- ===== src/Config.antt =====
-- internal/config: the atoms of the files below /etc/portage.
pub mod Atom
