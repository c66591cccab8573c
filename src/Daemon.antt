-- ===== src/Daemon.antt =====
-- internal/daemon: the queue of jobs with its conflict detector, and the scheduler of parallel builds.
pub mod Conflicts
pub mod Jobs
pub mod Scheduler
pub mod Topological
