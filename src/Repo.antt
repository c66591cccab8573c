-- ===== src/Repo.antt =====
-- internal/repo: the queries of repositories.
pub mod Specification
