-- ===== src/Daemon/Topological/Fuel.antt =====
-- About the fuel of `topologicalSort` of internal/daemon/scheduler.go, the number of tasks.
use grpm.Base.{
  ℕ, zero, suc, ◌+◌, ◌≤◌, ◌≡◌, ◌≢◌, Bool, true, false, List, [], ◌∷◌, ◌++◌, arith, inl, inr, length,
  length-append, ltb, if◌then◌else◌, Text, Option-cases,
}
use grpm.Base.Int.{ℤ, pos, negsuc, ◌-ℤ◌, is_zero_ℤ}
use grpm.Base.Assoc.{lookup, insert}
use grpm.Base.Result.{Result, ok, err}
use grpm.Daemon.Scheduler.{BuildTask, BuildScheduler}
use grpm.Daemon.Topological.{
  SortError, out_of_fuel, Degrees, degree_of, in_degrees, no_dependencies, reduce, process,
  topological_sort, put_first, all_sorted,
}

abbrev one_if_positive : ℤ → ℕ
one_if_positive (pos n) = if ltb 0 n then 1 else 0
one_if_positive (negsuc n) = 0

-- How many tasks still wait for a dependency.
unfoldable positives : Degrees → ℕ
positives [] = 0
positives ((id, d) ∷ m) = one_if_positive d + positives m

positives-insert :
    (id : Text) (d : ℤ) (m : Degrees)
    → positives (insert id d m) + one_if_positive (degree_of id m) ≡ positives m + one_if_positive d
unfolding positives insert degree_of lookup
positives-insert id d [] = omega arith
positives-insert id d ((j, e) ∷ m) = ground (arith, positives-insert id d m)

-- A degree that is one less: it is zero only where it was positive.
one_less :
    (d : ℤ)
    → (if is_zero_ℤ (d -ℤ pos 1) then 1 else 0) + one_if_positive (d -ℤ pos 1) ≤ one_if_positive d
one_less (pos n) = ground arith
one_less (negsuc n) = ground arith

length-snoc_if :
    (b : Bool) (l : List Text) (id : Text)
    → length (if b then l ++ id ∷ [] else l) ≡ length l + (if b then 1 else 0)
length-snoc_if true l id = length-append l (id ∷ [])
length-snoc_if false l id = omega arith

reduce-le :
    (ids : List Text) (m : Degrees) (queue : List Text)
    → length (reduce ids m queue).1 + positives (reduce ids m queue).0 ≤ length queue + positives m
unfolding reduce
reduce-le [] m queue = omega arith
reduce-le (id ∷ ids) m queue =
    let d = degree_of id m -ℤ pos 1 in
    let queue' = if is_zero_ℤ d then queue ++ id ∷ [] else queue in
    omega (
      arith,
      reduce-le ids (insert id d m) queue',
      positives-insert id d m,
      one_less (degree_of id m),
      length-snoc_if (is_zero_ℤ d) queue id,
    )

put_first-ne :
    (current : Text) (r : Result SortError (List Text))
    → r ≢ err out_of_fuel
    → put_first current r ≢ err out_of_fuel
put_first-ne current (ok rest) h e = cc
put_first-ne current (err x) h e = h e

process-ne-out_of_fuel :
    (fuel : ℕ) (tasks : List (Text × BuildTask)) (m : Degrees) (queue : List Text)
    → length queue + positives m ≤ fuel
    → process fuel tasks m queue ≢ err out_of_fuel
unfolding process
process-ne-out_of_fuel fuel tasks m [] h e = cc
process-ne-out_of_fuel zero tasks m (current ∷ queue) h e = absurd (omega arith)
process-ne-out_of_fuel (suc fuel) tasks m (current ∷ queue) h e =
    elim (Option-cases (lookup current tasks)) [
      | inl none_there ↦ ground (arith, rw (none_there, process) at e)
      | inr (t, there) ↦
          let (m', queue') = reduce t.dependents m queue in
          put_first-ne current (process fuel tasks m' queue')
            (process-ne-out_of_fuel fuel tasks m' queue'
              (omega (arith, reduce-le t.dependents m queue)))
            (rw (there, process) at e)
    ]

length-no_dependencies :
    (tasks : List (Text × BuildTask))
    → length (no_dependencies (in_degrees tasks)) + positives (in_degrees tasks) ≡ length tasks
unfolding no_dependencies in_degrees positives
length-no_dependencies [] = omega arith
length-no_dependencies ((id, t) ∷ m) = ground (arith, length-no_dependencies m)

all_sorted-ne :
    (n : ℕ) (r : Result SortError (List Text))
    → r ≢ err out_of_fuel
    → all_sorted n r ≢ err out_of_fuel
all_sorted-ne n (ok result) h e = ground (arith, e)
all_sorted-ne n (err x) h e = h e

-- The topological sort ends for every map of tasks, also with cycles and with dependents that are no
-- tasks: the fuel, which is the number of tasks, never runs out.
pub topological_sort-ne-out_of_fuel : (s : BuildScheduler) → topological_sort s ≢ err out_of_fuel
unfolding topological_sort
topological_sort-ne-out_of_fuel s =
    let m = in_degrees s.tasks in
    let queue = no_dependencies m in
    all_sorted-ne (length s.tasks) (process (length s.tasks) s.tasks m queue) (
      process-ne-out_of_fuel (length s.tasks) s.tasks m queue
        (omega (arith, length-no_dependencies s.tasks)))
