-- ===== src/Daemon/Jobs/Steps.antt =====
-- The queue of internal/daemon/job.go as a transition system. Submit is one step, and so is the
-- beginning of executeJob: these are the histories in which nothing comes between the conflict check of
-- a Submit and its storing of the job, nor between the read of the status by executeJob and its
-- setting it to running. Race has a history that is none of them.
use grpm.Base.{ℕ, ◌≡◌, true, Option, none, some, length, ltb, Text}
use grpm.Base.Assoc.{lookup, contains}
use grpm.Daemon.Conflicts.{pending, Job, PackageService}
use grpm.Daemon.Jobs.{JobQueue, new_job_queue, submit, take_job, end_job, cancel_job}

-- A submitted job is new: its ID stands under no other job.
pub data Step : JobQueue → JobQueue → Type 0 where
  submitted :
      (jq : JobQueue) (job : Job)
      → lookup job.id jq.jobs ≡ none
      → job.status ≡ pending
      → Step jq (submit jq job).0
  taken : (jq : JobQueue) → ltb (length jq.working) jq.max_workers ≡ true → Step jq (take_job jq)
  ended :
      (jq : JobQueue) (id : Text) (e : Option Text)
      → contains id jq.working ≡ true
      → Step jq (end_job jq id e)
  stopped : (jq : JobQueue) (id : Text) → Step jq (cancel_job jq id).0

pub data Reached (max_workers queue_size : ℕ) (service : PackageService) : JobQueue → Type 0 where
  at_start :
      Reached max_workers queue_size service (new_job_queue max_workers queue_size (some service))
  after :
      (jq jq' : JobQueue)
      → Reached max_workers queue_size service jq
      → Step jq jq'
      → Reached max_workers queue_size service jq'
