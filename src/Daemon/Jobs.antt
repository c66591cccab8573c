-- ===== src/Daemon/Jobs.antt =====
-- internal/daemon/job.go: the queue of jobs. A job is one object in the map, under its ID, and the
-- channel holds the IDs of the jobs that wait; `working` are those that workers execute.
pub mod Steps
pub mod Refuses
pub mod Safe
pub mod Equations
pub mod Runs
pub mod Stuck
pub mod Serial
pub mod Race
mod Tests
use grpm.Base.{
  ℕ, Bool, true, false, not, ◌&&◌, Option, none, some, List, [], ◌∷◌, ◌++◌, length, ltb, is_some,
  if◌then◌else◌, Text, codes,
}
use grpm.Base.Assoc.{lookup, insert, contains, remove_first}
use grpm.Base.Result.{Result, ok, err}
use grpm.Daemon.Conflicts.{
  JobStatus, pending, running, completed, failed, canceled, JobType, Job, PackageConflict,
  PackageService, detect_conflicts,
}

-- `String`.
unfoldable pub print_status : JobStatus → Text
print_status pending = codes "pending"
print_status running = codes "running"
print_status completed = codes "completed"
print_status failed = codes "failed"
print_status canceled = codes "canceled"

-- The ID is a fresh one of the uuid package.
unfoldable pub new_job : Text → JobType → Text → Job
new_job id kind package_name = record {
  id = id;
  kind = kind;
  package_name = package_name;
  status = pending;
  progress = 0;
  error = [];
  is_canceled = false;
}

pub record JobQueue : Type 0 where
  pub max_workers : ℕ
  pub queue_size : ℕ
  pub jobs : List (Text × Job)
  pub queue : List Text
  pub working : List Text
  pub conflict_detector : Option PackageService

unfoldable pub new_job_queue : ℕ → ℕ → Option PackageService → JobQueue
new_job_queue max_workers queue_size detector = record {
  max_workers = max_workers;
  queue_size = queue_size;
  jobs = [];
  queue = [];
  working = [];
  conflict_detector = detector;
}

pub data JobError : Type 0 where
  package_conflict : PackageConflict → JobError
  queue_full : JobError
  job_not_found : Text → JobError

abbrev pub job_values : List (Text × Job) → List Job
job_values [] = []
job_values ((id, job) ∷ m) = job ∷ job_values m

abbrev pub conflict_with : Option PackageService → Job → List Job → Option PackageConflict
conflict_with none job jobs = none
conflict_with (some service) job jobs = detect_conflicts service job jobs

-- The second half of `Submit`: the job is stored, and then queued if there is room.
unfoldable pub enqueue : JobQueue → Job → JobQueue × Option JobError
unfolding insert
enqueue jq job =
    let stored = record jq { jobs = insert job.id job jq.jobs } in
    if ltb (length jq.queue) jq.queue_size
    then (record stored { queue = jq.queue ++ job.id ∷ [] }, none)
    else (stored, some queue_full)

-- The first half of `Submit`, over the jobs of one moment.
abbrev pub check_submit : JobQueue → Job → Option PackageConflict
check_submit jq job = conflict_with jq.conflict_detector job (job_values jq.jobs)

-- `Submit`, where nothing comes between its halves.
unfoldable pub submit : JobQueue → Job → JobQueue × Option JobError
unfolding detect_conflicts enqueue
submit jq job = elim (check_submit jq job) [
  | none ↦ enqueue jq job
  | some conflict ↦ (jq, some (package_conflict conflict))
]

unfoldable pub get_job : JobQueue → Text → Result JobError Job
unfolding lookup
get_job jq id = elim (lookup id jq.jobs) [ none ↦ err (job_not_found id) | some job ↦ ok job ]

-- `Cancel`.
abbrev pub cancel : Job → Job
cancel job = record job { status = canceled; is_canceled = true }

unfoldable pub cancel_job : JobQueue → Text → JobQueue × Option JobError
unfolding lookup insert
cancel_job jq id = elim (lookup id jq.jobs) [
  | none ↦ (jq, some (job_not_found id))
  | some job ↦ (record jq { jobs = insert id (cancel job) jq.jobs }, none)
]

abbrev pub was_canceled : JobStatus → Bool
was_canceled canceled = true
was_canceled pending = false
was_canceled running = false
was_canceled completed = false
was_canceled failed = false

-- A worker takes a job from the channel and begins to execute it, unless it has been canceled.
unfoldable pub take_job : JobQueue → JobQueue
unfolding lookup insert
take_job jq = elim jq.queue [
  | [] ↦ jq
  | id ∷ rest ↦ elim (lookup id jq.jobs) [
    | none ↦ record jq { queue = rest }
    | some job ↦ if was_canceled job.status then record jq { queue = rest } else record jq {
      queue = rest;
      jobs = insert id (record job { status = running }) jq.jobs;
      working = id ∷ jq.working;
    }
  ]
]

-- What the end of `executeJob` makes of a job and the error of its function.
unfoldable pub ended_job : Job → Option Text → Job
ended_job job e = if was_canceled job.status then job else elim e [
  | none ↦ record job { status = completed; progress = 100 }
  | some message ↦ record job {
    status = if job.is_canceled then canceled else failed;
    error = message;
  }
]

unfoldable pub end_job : JobQueue → Text → Option Text → JobQueue
unfolding lookup insert ended_job remove_first
end_job jq id e = elim (lookup id jq.jobs) [
  | none ↦ record jq { working = remove_first id jq.working }
  | some job ↦ record jq {
    jobs = insert id (ended_job job e) jq.jobs;
    working = remove_first id jq.working;
  }
]
