-- ===== src/Daemon/Topological.antt =====
-- `topologicalSort` of internal/daemon/scheduler.go: Kahn's algorithm. The loop over the queue takes
-- fuel; `topological_sort` gives it the number of tasks (Fuel). The map of degrees
-- is iterated in the order of its list.
pub mod Fuel
pub mod Invariant
pub mod Sorted
mod Tests
use grpm.Base.{
  ℕ, zero, suc, ◌+◌, Bool, true, false, not, Option, none, some, List, [], ◌∷◌, ◌++◌, length, ◌==◌,
  if◌then◌else◌, Text,
}
use grpm.Base.Int.{ℤ, pos, negsuc, ◌-ℤ◌, is_zero_ℤ}
use grpm.Base.Assoc.{lookup, insert}
use grpm.Base.Result.{Result, ok, err}
use grpm.Daemon.Scheduler.{BuildTask, BuildScheduler}

-- `no_task` is a nil pointer that is read; `out_of_fuel` is the model's, and does not occur.
pub data SortError : Type 0 where
  cycle no_task out_of_fuel : SortError

abbrev pub Degrees : Type 0
Degrees = List (Text × ℤ)

-- `inDegree[id]`.
unfoldable pub degree_of : Text → Degrees → ℤ
unfolding lookup
degree_of id m = elim (lookup id m) [ none ↦ pos 0 | some d ↦ d ]

-- The two loops that count: every task stands under its ID, and each dependency adds one.
unfoldable pub in_degrees : List (Text × BuildTask) → Degrees
in_degrees [] = []
in_degrees ((id, t) ∷ m) = (id, pos (length t.dependencies)) ∷ in_degrees m

unfoldable pub no_dependencies : Degrees → List Text
no_dependencies [] = []
no_dependencies ((id, d) ∷ m) =
    let rest = no_dependencies m in if is_zero_ℤ d then id ∷ rest else rest

-- The loop over the dependents of a task: the degrees and the queue.
unfoldable pub reduce : List Text → Degrees → List Text → Degrees × List Text
unfolding degree_of insert
reduce [] m queue = (m, queue)
reduce (id ∷ ids) m queue =
    let d = degree_of id m -ℤ pos 1 in
    reduce ids (insert id d m) (if is_zero_ℤ d then queue ++ id ∷ [] else queue)

abbrev pub put_first : Text → Result SortError (List Text) → Result SortError (List Text)
put_first current (ok rest) = ok (current ∷ rest)
put_first current (err e) = err e

-- The loop over the queue; the result is in the order in which tasks leave it.
unfoldable pub process :
    ℕ → List (Text × BuildTask) → Degrees → List Text → Result SortError (List Text)
unfolding lookup reduce
process fuel tasks m [] = ok []
process zero tasks m (current ∷ queue) = err out_of_fuel
process (suc fuel) tasks m (current ∷ queue) = elim (lookup current tasks) [
  | none ↦ err no_task
  | some t ↦
      let (m', queue') = reduce t.dependents m queue in
      put_first current (process fuel tasks m' queue')
]

-- The test for a cycle behind the loop.
abbrev pub all_sorted : ℕ → Result SortError (List Text) → Result SortError (List Text)
all_sorted n (err e) = err e
all_sorted n (ok result) = if length result == n then ok result else err cycle

unfoldable pub topological_sort : BuildScheduler → Result SortError (List Text)
unfolding process in_degrees no_dependencies
topological_sort s =
    let m = in_degrees s.tasks in
    all_sorted (length s.tasks) (process (length s.tasks) s.tasks m (no_dependencies m))
