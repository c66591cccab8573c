-- ===== src/Pkg.antt =====
-- internal/pkg: versions, REQUIRED_USE, USE flags, version constraints and packages.
pub mod Version
pub mod RequiredUse
pub mod Use
pub mod VersionConstraint
pub mod Constraint
pub mod Containment
pub mod Package
