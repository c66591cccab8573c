-- ===== src/Daemon/Scheduler.antt =====
-- internal/daemon/scheduler.go: the tasks of the build scheduler, their dependencies, and the queue
-- of tasks that are ready. The pointers of the map of tasks are not shared: each task stands under
-- its own ID. Times, output, packages and build functions are not modelled.
pub mod Linked
pub mod Ready
mod Tests
use grpm.Base.{
  ℕ, Bool, true, false, Option, none, some, List, [], ◌∷◌, ◌++◌, ltb, length, if◌then◌else◌, Text,
  text_eq,
}
use grpm.Base.Assoc.{lookup, insert, contains}
use grpm.Base.Result.{Result, ok, err}

pub data BuildStatus : Type 0 where
  pending waiting running completed failed canceled : BuildStatus

pub record BuildTask : Type 0 where
  pub id : Text
  pub dependencies : List Text
  pub dependents : List Text
  pub status : BuildStatus

pub data SchedulerError : Type 0 where
  is_running already_exists dependent_not_found dependency_not_found : SchedulerError

pub record BuildScheduler : Type 0 where
  pub tasks : List (Text × BuildTask)
  pub completed_set : List Text
  pub ready_queue : List Text  -- the IDs of the tasks in the channel
  pub capacity : ℕ  -- of the channel
  pub running : Bool

-- `NewBuildTask`, whose ID is made of the name and the version of the package.
unfoldable pub new_build_task : Text → BuildTask
new_build_task id = record { id = id; dependencies = []; dependents = []; status = pending }

-- `NewBuildScheduler`, for the capacity that it gives to the channel.
unfoldable pub new_build_scheduler : ℕ → BuildScheduler
new_build_scheduler capacity = record {
  tasks = [];
  completed_set = [];
  ready_queue = [];
  capacity = capacity;
  running = false;
}

unfoldable pub add_task : BuildTask → BuildScheduler → Result SchedulerError BuildScheduler
unfolding lookup insert
add_task task s = if s.running then err is_running else elim (lookup task.id s.tasks) [
  | some _ ↦ err already_exists
  | none ↦ ok (record s { tasks = insert task.id task s.tasks })
]

-- A write through the pointer that stands under an ID.
unfoldable pub modify :
    Text → (BuildTask → BuildTask) → List (Text × BuildTask) → List (Text × BuildTask)
unfolding text_eq
modify k f [] = []
modify k f ((j, t) ∷ m) = if text_eq j k then (j, f t) ∷ m else (j, t) ∷ modify k f m

abbrev pub depending_on : Text → BuildTask → BuildTask
depending_on k t = record t { dependencies = t.dependencies ++ k ∷ [] }

abbrev pub needed_by : Text → BuildTask → BuildTask
needed_by k t = record t { dependents = t.dependents ++ k ∷ [] }

unfoldable pub add_dependency : Text → Text → BuildScheduler → Result SchedulerError BuildScheduler
unfolding lookup modify
add_dependency dependent_id dependency_id s =
    if s.running then err is_running else elim (lookup dependent_id s.tasks) [
      | none ↦ err dependent_not_found
      | some _ ↦ elim (lookup dependency_id s.tasks) [
        | none ↦ err dependency_not_found
        | some _ ↦ ok (record s {
          tasks =
              modify dependency_id (needed_by dependent_id)
                (modify dependent_id (depending_on dependency_id) s.tasks);
        })
      ]
    ]

-- The loop of `areDependenciesCompleted`.
unfoldable pub all_completed : List Text → List Text → Bool
unfolding contains
all_completed done [] = true
all_completed done (dep_id ∷ deps) =
    let rest = all_completed done deps in if contains dep_id done then rest else false

unfoldable pub are_dependencies_completed : BuildTask → BuildScheduler → Bool
unfolding all_completed
are_dependencies_completed task s = all_completed s.completed_set task.dependencies

-- The `select` with a default: a full channel drops the task.
unfoldable pub send_ready : Text → BuildScheduler → BuildScheduler
send_ready id s =
    if ltb (length s.ready_queue) s.capacity
    then record s { ready_queue = s.ready_queue ++ id ∷ [] }
    else s

-- One pass of the loop of `queueReadyDependents`.
unfoldable pub queue_dependent : Text → BuildScheduler → BuildScheduler
unfolding lookup are_dependencies_completed send_ready
queue_dependent dependent_id s = elim (lookup dependent_id s.tasks) [
  | none ↦ s
  | some dependent ↦ if are_dependencies_completed dependent s then send_ready dependent_id s else s
]

unfoldable pub queue_dependents : List Text → BuildScheduler → BuildScheduler
unfolding queue_dependent
queue_dependents [] s = s
queue_dependents (dependent_id ∷ ids) s = queue_dependents ids (queue_dependent dependent_id s)

unfoldable pub queue_ready_dependents : BuildTask → BuildScheduler → BuildScheduler
unfolding queue_dependents
queue_ready_dependents task s = queue_dependents task.dependents s

-- What `collectResults` does with a task that has been built.
unfoldable pub collect_completed : BuildTask → BuildScheduler → BuildScheduler
unfolding queue_ready_dependents
collect_completed task s =
    queue_ready_dependents task (record s { completed_set = task.id ∷ s.completed_set })

abbrev pub cancel : BuildTask → BuildTask
cancel t = elim t.status [
  | pending ↦ record t { status = canceled }
  | waiting ↦ record t { status = canceled }
  | _ ↦ t
]

unfoldable pub cancel_tasks : List (Text × BuildTask) → List (Text × BuildTask)
cancel_tasks [] = []
cancel_tasks ((k, t) ∷ m) = (k, cancel t) ∷ cancel_tasks m

unfoldable pub cancel_remaining_tasks : BuildScheduler → BuildScheduler
unfolding cancel_tasks
cancel_remaining_tasks s = record s { tasks = cancel_tasks s.tasks }
