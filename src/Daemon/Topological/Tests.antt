-- ===== src/Daemon/Topological/Tests.antt =====
-- Runs of `topologicalSort` of internal/daemon/scheduler.go.
use grpm.Base.Assoc.{count, keys}
use grpm.Daemon.Scheduler.Linked.{add, depend, edit_all, edit_all-IsLinked}
use grpm.Daemon.Scheduler.{new_build_scheduler, new_build_task}
use grpm.Daemon.Topological.Sorted.{InOrder, topological_sort-InOrder}
use grpm.Base.{
  ◌≤◌, arith, length, text_eq_iff, ◌≡◌, ◌≢◌, refl, true, List, [], ◌∷◌, Text, codes, text_eq,
}
use grpm.Base.Result.{ok, err}
use grpm.Daemon.Scheduler.{BuildTask, BuildScheduler, waiting}
use grpm.Daemon.Topological.{cycle, out_of_fuel, topological_sort}
use grpm.Daemon.Topological.Fuel.{topological_sort-ne-out_of_fuel}

abbrev task : Text → List Text → List Text → Text × BuildTask
task id dependencies dependents =
    (id, record { id = id; dependencies = dependencies; dependents = dependents; status = waiting })

abbrev scheduler : List (Text × BuildTask) → BuildScheduler
scheduler tasks = record {
  tasks = tasks;
  completed_set = [];
  ready_queue = [];
  capacity = 2;
  running = true;
}

-- c needs a and b, and b needs a.
abbrev diamond : BuildScheduler
diamond = scheduler (
    task (codes "c") (codes "a" ∷ codes "b" ∷ []) []
    ∷ task (codes "b") (codes "a" ∷ []) (codes "c" ∷ [])
    ∷ task (codes "a") [] (codes "c" ∷ codes "b" ∷ [])
    ∷ [])

abbrev loop : BuildScheduler
loop = scheduler (
    task (codes "a") (codes "b" ∷ []) (codes "b" ∷ [])
    ∷ task (codes "b") (codes "a" ∷ []) (codes "a" ∷ [])
    ∷ [])

sorted : topological_sort diamond ≡ ok (codes "a" ∷ codes "b" ∷ codes "c" ∷ [])
unfolding topological_sort text_eq
sorted = refl

in_a_cycle : topological_sort loop ≡ err cycle
unfolding topological_sort text_eq
in_a_cycle = refl

topological_sort-ne-out_of_fuel_example : topological_sort diamond ≢ err out_of_fuel
topological_sort-ne-out_of_fuel_example = topological_sort-ne-out_of_fuel diamond

-- A scheduler that is made by adding two tasks and a dependency of the first on the second.
abbrev built : BuildScheduler
built =
    edit_all (add (codes "a") ∷ add (codes "b") ∷ depend (codes "a") (codes "b") ∷ [])
      (new_build_scheduler 2)

built_once : (id : Text) → count id (keys built.tasks) ≤ 1
unfolding edit_all new_build_scheduler new_build_task text_eq count
built_once id = ground (arith, text_eq_iff (codes "a") id, text_eq_iff (codes "b") id)

built_sorted : topological_sort built ≡ ok (codes "b" ∷ codes "a" ∷ [])
unfolding topological_sort edit_all new_build_scheduler new_build_task text_eq
built_sorted = refl

topological_sort-InOrder_example :
    InOrder built.tasks [] (codes "b" ∷ codes "a" ∷ [])
    × (length (codes "b" ∷ codes "a" ∷ []) ≡ length built.tasks)
topological_sort-InOrder_example =
    topological_sort-InOrder built (codes "b" ∷ codes "a" ∷ [])
      (edit_all-IsLinked (add (codes "a") ∷ add (codes "b") ∷ depend (codes "a") (codes "b") ∷ [])
        2)
      built_once built_sorted
