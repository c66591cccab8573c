-- ===== src/Daemon/Scheduler/Tests.antt =====
-- Runs of internal/daemon/scheduler.go.
use grpm.Base.{ℕ, ◌≤◌, ◌≡◌, ◌⊎◌, refl, true, some, List, [], ◌∷◌, All, arith, codes, text_eq}
use grpm.Base.Assoc.{count, contains, lookup}
use grpm.Daemon.Scheduler.{
  BuildTask, BuildScheduler, completed, waiting, new_build_scheduler, collect_completed,
}
use grpm.Daemon.Scheduler.Linked.{Edit, add, depend, edit_all, IsLinked, edit_all-IsLinked}
use grpm.Daemon.Scheduler.Ready.{collect_completed-ready}

abbrev edits : List Edit
edits =
    add (codes "zlib-1")
    ∷ add (codes "openssl-3")
    ∷ depend (codes "openssl-3") (codes "zlib-1")
    ∷ depend (codes "openssl-3") (codes "missing-1")
    ∷ []

edit_all-IsLinked_example : IsLinked (edit_all edits (new_build_scheduler 4)).tasks
edit_all-IsLinked_example = edit_all-IsLinked edits 4

abbrev zlib : BuildTask
zlib = record {
  id = codes "zlib-1";
  dependencies = [];
  dependents = codes "openssl-3" ∷ [];
  status = completed;
}

abbrev openssl : BuildTask
openssl = record {
  id = codes "openssl-3";
  dependencies = codes "zlib-1" ∷ [];
  dependents = [];
  status = waiting;
}

abbrev scheduler : ℕ → BuildScheduler
scheduler capacity = record {
  tasks = (codes "zlib-1", zlib) ∷ (codes "openssl-3", openssl) ∷ [];
  completed_set = [];
  ready_queue = [];
  capacity = capacity;
  running = true;
}

queued : (collect_completed zlib (scheduler 4)).ready_queue ≡ codes "openssl-3" ∷ []
unfolding collect_completed text_eq
queued = refl

-- A full channel drops the task, and nothing queues it again.
dropped : (collect_completed zlib (scheduler 0)).ready_queue ≡ []
unfolding collect_completed text_eq
dropped = refl

openssl_queued : 1 ≤ count (codes "openssl-3") (collect_completed zlib (scheduler 4)).ready_queue
unfolding collect_completed text_eq count
openssl_queued = omega arith

collect_completed-ready_example :
    (1 ≤ count (codes "openssl-3") (scheduler 4).ready_queue)
    ⊎ ((t : BuildTask) × (lookup (codes "openssl-3") (scheduler 4).tasks ≡ some t)
        × All (λ d. contains d (zlib.id ∷ (scheduler 4).completed_set) ≡ true) t.dependencies)
collect_completed-ready_example =
    collect_completed-ready zlib (scheduler 4) (codes "openssl-3") openssl_queued
