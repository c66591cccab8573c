-- ===== src/Daemon/Jobs/Serial.antt =====
-- Submissions to internal/daemon/job.go one after the other, with the steps of workers and
-- cancellations also between the conflict check of a Submit and its storing of the job.
use grpm.Base.{ℕ, ◌≡◌, true, false, Option, none, some, length, ltb, Text}
use grpm.Base.Assoc.{lookup, contains}
use grpm.Daemon.Conflicts.{pending, Job, PackageService, is_active, is_same_package}
use grpm.Daemon.Jobs.{JobQueue, new_job_queue, check_submit, enqueue, cancel_job, take_job, end_job}
use grpm.Daemon.Jobs.Safe.{Inv}

-- The states that are reached, with the job of a Submit that has found no conflict and has not stored
-- its job yet. Storing and queueing are one step, and so are executeJob's read of the status and its
-- setting it to running.
pub data Serial (max_workers queue_size : ℕ) (service : PackageService)
    : JobQueue → Option Job → Type 0 where
  at_start :
      Serial max_workers queue_size service
        (new_job_queue max_workers queue_size (some service))
        none
  checked :
      (jq : JobQueue) (job : Job)
      → Serial max_workers queue_size service jq none
      → lookup job.id jq.jobs ≡ none
      → job.status ≡ pending
      → check_submit jq job ≡ none
      → Serial max_workers queue_size service jq (some job)
  stored :
      (jq : JobQueue) (job : Job)
      → Serial max_workers queue_size service jq (some job)
      → Serial max_workers queue_size service (enqueue jq job).0 none
  taken :
      (jq : JobQueue) (c : Option Job)
      → Serial max_workers queue_size service jq c
      → ltb (length jq.working) jq.max_workers ≡ true
      → Serial max_workers queue_size service (take_job jq) c
  ended :
      (jq : JobQueue) (c : Option Job) (id : Text) (e : Option Text)
      → Serial max_workers queue_size service jq c
      → contains id jq.working ≡ true
      → Serial max_workers queue_size service (end_job jq id e) c
  stopped :
      (jq : JobQueue) (c : Option Job) (id : Text)
      → Serial max_workers queue_size service jq c
      → Serial max_workers queue_size service (cancel_job jq id).0 c

-- A job that has been checked is new, and for no package of an active job.
record InFlight (jq : JobQueue) (job : Job) : Type 0 where
  fresh : lookup job.id jq.jobs ≡ none
  waits : job.status ≡ pending
  apart :
      (k : Text) (old : Job)
      → lookup k jq.jobs ≡ some old
      → is_active old.status ≡ true
      → is_same_package job.package_name old.package_name ≡ false

module _ (max_workers queue_size : ℕ) (service : PackageService) where
  abbrev Good : JobQueue → Type 0
  Good = Inv max_workers queue_size service

  abbrev Holds : JobQueue → Option Job → Type 0
  Holds jq none = Good jq
  Holds jq (some job) = Good jq × InFlight jq job
