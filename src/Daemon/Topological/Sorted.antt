-- ===== src/Daemon/Topological/Sorted.antt =====
-- The order that `topologicalSort` of internal/daemon/scheduler.go returns.
use grpm.Base.{
  ==_iff, if_rule, text_eq_refl, ℕ, zero, suc, ◌≤◌, ◌≡◌, refl, sym, ◌∙◌, ap, true, List, [], ◌∷◌,
  arith, inl, inr, length, ◌==◌, Text, Option-cases, All,
}
use grpm.Base.Int.{pos}
use grpm.Base.Assoc.{lookup, count, contains, keys}
use grpm.Base.Result.{Result, ok, err, ok-injective}
use grpm.Daemon.Scheduler.{BuildScheduler}
use grpm.Daemon.Scheduler.Linked.{Tasks, dependencies_of, IsLinked}
use grpm.Daemon.Topological.{
  SortError, Degrees, degree_of, in_degrees, no_dependencies, reduce, put_first, process,
  all_sorted, topological_sort,
}
use grpm.Daemon.Topological.Invariant.{hits, hits-le, hits-All, Inv, reduce-Inv, step-Inv}

-- Each task of the list has all of its dependencies among those done before it.
pub InOrder : Tasks → List Text → List Text → Type 0
InOrder tasks done [] = Unit
InOrder tasks done (id ∷ rest) =
    All (λ d. contains d done ≡ true) (dependencies_of id tasks) × InOrder tasks (id ∷ done) rest

put_first-eq-ok :
    (current : Text) (r : Result SortError (List Text)) (result : List Text)
    → put_first current r ≡ ok result
    → (rest : List Text) × (r ≡ ok rest) × (current ∷ rest ≡ result)
put_first-eq-ok current (ok rest) result h = (rest, refl, ok-injective h)
put_first-eq-ok current (err e) result h = cc

process-InOrder :
    (tasks : Tasks) (fuel : ℕ) (done : List Text) (m : Degrees) (queue result : List Text)
    → IsLinked tasks
    → Inv tasks done [] m queue
    → process fuel tasks m queue ≡ ok result
    → InOrder tasks done result
unfolding process InOrder count
process-InOrder tasks fuel done m [] result l h e = rw (← ok-injective e) tt
process-InOrder tasks zero done m (current ∷ queue) result l h e = cc
process-InOrder tasks (suc fuel) done m (current ∷ queue) result l h e =
    elim (Option-cases (lookup current tasks)) [
      | inl absent ↦ absurd (ground (arith, rw (absent, process) at e))
      | inr (t, there) ↦
          let (m', queue') = reduce t.dependents m queue in
          let (rest, e', same) =
            put_first-eq-ok current (process fuel tasks m' queue') result
              (rw (there, process) at e) in
          let inv =
            reduce-Inv tasks (current ∷ done) t.dependents m queue
              (step-Inv tasks done m queue current t l there h) in
          rw (← same) (
            (
              hits-All done (dependencies_of current tasks) (
                  ground (
                    arith,
                    h.free current,
                    text_eq_refl current,
                    hits-le done (dependencies_of current tasks),
                  )),
              process-InOrder tasks fuel (current ∷ done) m' queue' rest l inv e',
            ))
    ]

hits-nil : (deps : List Text) → hits [] deps ≡ 0
unfolding hits contains
hits-nil [] = refl
hits-nil (d ∷ deps) = ground (arith, hits-nil deps)

degree_of-in_degrees :
    (tasks : Tasks) (id : Text)
    → degree_of id (in_degrees tasks) ≡ pos (length (dependencies_of id tasks))
unfolding degree_of in_degrees dependencies_of lookup
degree_of-in_degrees [] id = refl
degree_of-in_degrees ((k, t) ∷ m) id = ground (arith, degree_of-in_degrees m id)

count-no_dependencies :
    (tasks : Tasks) (id : Text)
    → count id (no_dependencies (in_degrees tasks)) ≤ count id (keys tasks)
unfolding no_dependencies in_degrees count
count-no_dependencies [] id = omega arith
count-no_dependencies ((k, t) ∷ m) id = ground (arith, count-no_dependencies m id)

no_dependencies-free :
    (tasks : Tasks) (id : Text)
    → count id (keys tasks) ≤ 1
    → 1 ≤ count id (no_dependencies (in_degrees tasks))
    → length (dependencies_of id tasks) ≡ 0
unfolding no_dependencies in_degrees count dependencies_of lookup
no_dependencies-free [] id u h = absurd (omega arith)
no_dependencies-free ((k, t) ∷ m) id u h =
    ground (arith, no_dependencies-free m id, count-no_dependencies m id)

first-Inv :
    (tasks : Tasks)
    → ((id : Text) → count id (keys tasks) ≤ 1)
    → Inv tasks [] [] (in_degrees tasks) (no_dependencies (in_degrees tasks))
unfolding count
first-Inv tasks u = record {
  degrees = λ id.
      degree_of-in_degrees tasks id ∙ ap pos (omega (arith, hits-nil (dependencies_of id tasks)));
  once = λ id. omega (arith, u id, count-no_dependencies tasks id);
  free = λ id h. omega (arith, no_dependencies-free tasks id (u id) (omega (arith, h)));
}

all_sorted-eq-ok :
    (n : ℕ) (r : Result SortError (List Text)) (result : List Text)
    → all_sorted n r ≡ ok result
    → (r ≡ ok result) × (length result ≡ n)
all_sorted-eq-ok n (err e) result h = cc
all_sorted-eq-ok n (ok l) result h =
    if_rule
      (λ (x : Result SortError (List Text)).
        x ≡ ok result
        → (◌≡◌ {A = Result SortError (List Text)} (ok l) (ok result)) × (length result ≡ n))
      (length l == n) _ _
      (λ all_there e. (e, ap length (sym (ok-injective e)) ∙ (==_iff (length l) n).0 all_there))
      (λ _ e. cc) h

-- Where the two directions of the dependencies agree and each ID stands for one task, an order that
-- the topological sort returns has as many entries as there are tasks, and each task in it comes
-- after all of its dependencies.
pub topological_sort-InOrder :
    (s : BuildScheduler) (result : List Text)
    → IsLinked s.tasks
    → ((id : Text) → count id (keys s.tasks) ≤ 1)
    → topological_sort s ≡ ok result
    → InOrder s.tasks [] result × (length result ≡ length s.tasks)
unfolding topological_sort
topological_sort-InOrder s result l u e =
    let m = in_degrees s.tasks in
    let (sorted, many) = all_sorted-eq-ok (length s.tasks) _ result e in
    (
      process-InOrder s.tasks (length s.tasks) [] m (no_dependencies m) result l
          (first-Inv s.tasks u) sorted,
      many,
    )
