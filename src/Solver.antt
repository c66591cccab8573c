-- ===== src/Solver.antt =====
-- internal/solver: what the resolver does around the SAT solver.
pub mod BaseAtom
pub mod Depclean
pub mod Graph
