-- ===== src/Solver/Graph/Cycles/Tests.antt =====
-- Runs of internal/solver/cycle_detector.go on small graphs.
use Prim.Native.String.{String}
use grpm.Base.{◌≡◌, ◌⊎◌, refl, true, false, List, [], ◌∷◌, Text, codes}
use grpm.Base.Result.{ok, err}
use grpm.Pkg.Constraint.{new_simple_constraint}
use grpm.Pkg.Package.{Package, new_package}
use grpm.Solver.Graph.{
  GraphNode, DependencyGraph, runtime, new_dependency_graph, add_package, add_dependency,
}
use grpm.Solver.Graph.Cycles.{cycle_error, print_cycle, detect_cycles, has_cycles}
use grpm.Solver.Graph.Cycles.Walks.{Walk, IsCycle}
use grpm.Solver.Graph.Cycles.Search.{edge}
use grpm.Solver.Graph.Cycles.Detects.{detect_cycles-IsCycle}

abbrev package_named : String → Package Text
package_named name = new_package (codes name) (codes "1") (codes "0")

abbrev three : DependencyGraph Text
three =
    add_package
      (add_package (add_package new_dependency_graph (package_named "a") true) (package_named "b")
        false)
      (package_named "c") false

abbrev depend : DependencyGraph Text → String → String → DependencyGraph Text
depend g source to =
    elim (add_dependency g (codes source) (codes to) (new_simple_constraint (codes to)) runtime) [
      | ok g' ↦ g'
      | err e ↦ g
    ]

abbrev chain : DependencyGraph Text
chain = depend (depend three "a" "b") "b" "c"

abbrev ring : DependencyGraph Text
ring = depend chain "c" "b"

detect_cycles-IsCycle_example :
    ((nodes : List (Text × GraphNode Text)) × (detect_cycles ring ≡ ok nodes)
      × ((v : Text) → ¬ Walk (edge ring.nodes) v v))
    ⊎ ((c : List Text) × (detect_cycles ring ≡ err (cycle_error c)) × IsCycle (edge ring.nodes) c)
detect_cycles-IsCycle_example = detect_cycles-IsCycle ring

ring_found :
    (detect_cycles ring ≡ err (cycle_error (codes "b" ∷ codes "c" ∷ [])))
    × (has_cycles chain ≡ false)
    × (print_cycle (codes "b" ∷ codes "c" ∷ []) ≡ codes "circular dependency detected: b -> c -> b")
unfolding detect_cycles has_cycles add_package add_dependency new_package new_simple_constraint
    print_cycle
ring_found = (refl, refl, refl)
