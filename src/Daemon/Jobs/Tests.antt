-- ===== src/Daemon/Jobs/Tests.antt =====
-- Runs of internal/daemon/job.go and conflict_detector.go.
use Prim.Native.String.{String}
use grpm.Base.{◌≡◌, refl, true, Option, none, some, Text, codes}
use grpm.Base.Result.{ok, err}
use grpm.Base.Assoc.{lookup, contains}
use grpm.Daemon.Conflicts.{
  canceled, install, Job, PackageConflict, PackageService, is_same_package, extract_package_name,
}
use grpm.Daemon.Jobs.{
  JobQueue, JobError, new_job, new_job_queue, package_conflict, enqueue, submit, get_job,
  cancel_job, take_job, end_job,
}
use grpm.Daemon.Jobs.Steps.{Reached, after, submitted}
use grpm.Daemon.Jobs.Race.{raced_submissions}
use grpm.Daemon.Jobs.Serial.{Serial, at_start}
use grpm.Daemon.Jobs.Stuck.{Later, now, by_take, by_end, submit-Later}

names :
    (extract_package_name (codes "dev-python/pytest-7.4.0-r1") ≡ codes "dev-python/pytest")
    × (extract_package_name (codes "sys-libs/glibc") ≡ codes "sys-libs/glibc")
    × (is_same_package (codes "dev-lang/go") (codes "dev-lang/go-1.22.0") ≡ true)
unfolding extract_package_name is_same_package
names = (refl, refl, refl)

abbrev no_service : PackageService
no_service = λ name. none

abbrev job : String → String → Job
job id name = new_job (codes id) install (codes name)

abbrev empty_queue : JobQueue
empty_queue = new_job_queue 1 1 (some no_service)

abbrev with_one : JobQueue
with_one = (submit empty_queue (job "1" "a/x")).0

-- The second job finds the channel full, and is stored.
abbrev with_two : JobQueue
with_two = (submit with_one (job "2" "b/y")).0

one_Reached : Reached 1 1 no_service with_one
unfolding new_job_queue new_job lookup
one_Reached =
    after empty_queue with_one Reached.at_start (submitted empty_queue (job "1" "a/x") refl refl)

-- A worker takes the first job between the conflict check of the second one and its storing.
abbrev with_taken : JobQueue
with_taken = (enqueue (take_job with_one) (job "2" "b/y")).0

-- The first job is executed and ends, so that the channel is empty.
abbrev all_done : JobQueue
all_done = end_job (take_job with_two) (codes "1") none

done_Later : Later (codes "2") with_two all_done
unfolding new_job_queue new_job lookup submit take_job contains
done_Later = by_end (take_job with_two) (codes "1") none (by_take with_two now) refl

abbrev again : Job
again = job "3" "a/x-1.0"

raced_submissions_example :
    (lookup (codes "1") (enqueue (enqueue empty_queue (job "1" "a/x")).0 again).0.jobs
      ≡ some (job "1" "a/x"))
    × (lookup (codes "3") (enqueue (enqueue empty_queue (job "1" "a/x")).0 again).0.jobs
        ≡ some again)
    × ((c : PackageConflict) × (submit with_one again ≡ (with_one, some (package_conflict c))))
unfolding new_job_queue new_job submit is_same_package
raced_submissions_example =
    raced_submissions no_service empty_queue (job "1" "a/x") again refl refl refl refl refl refl

submit-Later_example :
    (get_job all_done (codes "2") ≡ ok (job "2" "b/y"))
    × ((c : PackageConflict) × (submit all_done (job "3" "b/y-1.0")
          ≡ (all_done, some (package_conflict c))))
unfolding new_job_queue new_job lookup submit is_same_package
submit-Later_example =
    submit-Later 1 1 no_service with_one all_done (job "2" "b/y") (job "3" "b/y-1.0") one_Reached
      refl refl refl done_Later refl

-- A job that is completed can be canceled all the same.
abbrev status_of : Option JobError → JobQueue → Text → Job
status_of e jq id = elim (get_job jq id) [ ok j ↦ j | err e ↦ job "" "" ]

overwritten : (status_of none (cancel_job all_done (codes "1")).0 (codes "1")).status ≡ canceled
unfolding new_job_queue new_job get_job submit take_job end_job cancel_job
overwritten = refl
