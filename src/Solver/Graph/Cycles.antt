-- ===== src/Solver/Graph/Cycles.antt =====
-- `DetectCycles` of internal/solver/cycle_detector.go. The search takes fuel: one more than there are
-- nodes. The nodes are changed in place; the map is iterated in the order of its list.
pub mod Colours
pub mod Walks
pub mod Search
pub mod Node
pub mod Detects
mod Tests
use grpm.Base.{
  ℕ, zero, suc, Bool, true, false, Option, none, some, List, [], ◌∷◌, ◌++◌, length, if◌then◌else◌,
  Text, codes, text_eq,
}
use grpm.Base.Assoc.{lookup, insert, keys}
use grpm.Base.Result.{Result, ok, err}
use grpm.Solver.Graph.{
  NodeState, unvisited, visiting, visited, GraphEdge, GraphNode, DependencyGraph, reset_nodes,
}

pub data CycleError : Type 0 where
  cycle_error : List Text → CycleError
  out_of_fuel : CycleError

-- The loop that finds the first occurrence, and the slice from there.
unfoldable pub suffix_from : Text → List Text → Option (List Text)
unfolding text_eq
suffix_from start [] = none
suffix_from start (p ∷ path) =
    let later = suffix_from start path in if text_eq p start then some (p ∷ path) else later

unfoldable pub extract_cycle : List Text → Text → List Text
unfolding suffix_from
extract_cycle path start = elim (suffix_from start path) [ none ↦ start ∷ [] | some cycle ↦ cycle ]

unfoldable pub join_arrows : List Text → Text
join_arrows [] = []
join_arrows (p ∷ []) = p
join_arrows (p ∷ q ∷ path) = p ++ (codes " -> " ++ join_arrows (q ∷ path))

-- `Error`.
unfoldable pub print_cycle : List Text → Text
unfolding join_arrows
print_cycle [] = codes "circular dependency detected"
print_cycle (p ∷ cycle) =
    codes "circular dependency detected: " ++ (join_arrows (p ∷ cycle) ++ (codes " -> " ++ p))

module _ {Atom : Type 0} where
  -- The loop over the edges of a node; `recurse` is the call of the function on a target.
  unfoldable pub each_edge :
      (Text → List (Text × GraphNode Atom) → Result CycleError (List (Text × GraphNode Atom)))
      → List GraphEdge
      → List (Text × GraphNode Atom)
      → Result CycleError (List (Text × GraphNode Atom))
  each_edge recurse [] nodes = ok nodes
  each_edge recurse (edge ∷ edges) nodes = elim (recurse edge.to nodes) [
    | err e ↦ err e
    | ok nodes' ↦ each_edge recurse edges nodes'
  ]

  abbrev pub begin_node : GraphNode Atom → GraphNode Atom
  begin_node node = record node { state = visiting; is_visited = true; in_stack = true }

  -- The end of the visit, at the node as it is then.
  unfoldable pub finish :
      Text
      → Result CycleError (List (Text × GraphNode Atom))
      → Result CycleError (List (Text × GraphNode Atom))
  unfolding lookup insert
  finish name (err e) = err e
  finish name (ok nodes) = elim (lookup name nodes) [
    | none ↦ ok nodes
    | some n ↦ ok (insert name (record n { state = visited; in_stack = false }) nodes)
  ]

  unfoldable pub dfs_detect_cycle :
      ℕ
      → Text
      → List Text
      → List (Text × GraphNode Atom)
      → Result CycleError (List (Text × GraphNode Atom))
  unfolding lookup insert each_edge finish extract_cycle
  dfs_detect_cycle zero name path nodes = err out_of_fuel
  dfs_detect_cycle (suc fuel) name path nodes =
      let recurse = λ (to : Text) (ns : List (Text × GraphNode Atom)).
        dfs_detect_cycle fuel to (path ++ name ∷ []) ns in
      elim (lookup name nodes) [
        | none ↦ ok nodes
        | some node ↦ elim node.state [
          | visited ↦ ok nodes
          | visiting ↦ err (cycle_error (extract_cycle path name))
          | unvisited ↦
              finish name
                (each_edge recurse node.dependencies (insert name (begin_node node) nodes))
        ]
      ]

  -- The loop over the roots.
  unfoldable pub from_roots :
      ℕ
      → List Text
      → List (Text × GraphNode Atom)
      → Result CycleError (List (Text × GraphNode Atom))
  unfolding dfs_detect_cycle
  from_roots fuel [] nodes = ok nodes
  from_roots fuel (root ∷ roots) nodes = elim (dfs_detect_cycle fuel root [] nodes) [
    | err e ↦ err e
    | ok nodes' ↦ from_roots fuel roots nodes'
  ]

  abbrev pub seen : Option (GraphNode Atom) → Bool
  seen none = true
  seen (some n) = n.is_visited

  -- The loop over the nodes that are not visited then.
  unfoldable pub from_rest :
      ℕ
      → List Text
      → List (Text × GraphNode Atom)
      → Result CycleError (List (Text × GraphNode Atom))
  unfolding dfs_detect_cycle lookup
  from_rest fuel [] nodes = ok nodes
  from_rest fuel (name ∷ names) nodes =
      let skipped = from_rest fuel names nodes in
      let searched : Result CycleError (List (Text × GraphNode Atom)) =
        elim (dfs_detect_cycle fuel name [] nodes) [
          | err e ↦ err e
          | ok nodes' ↦ from_rest fuel names nodes'
        ] in
      if seen (lookup name nodes) then skipped else searched

  -- The nodes as they are left, or the error.
  unfoldable pub detect_cycles :
      DependencyGraph Atom → Result CycleError (List (Text × GraphNode Atom))
  unfolding reset_nodes from_roots from_rest
  detect_cycles g =
      let fuel = suc (length g.nodes) in
      elim (from_roots fuel g.roots (reset_nodes g.nodes)) [
        | err e ↦ err e
        | ok nodes ↦ from_rest fuel (keys g.nodes) nodes
      ]

  unfoldable pub has_cycles : DependencyGraph Atom → Bool
  unfolding detect_cycles
  has_cycles g = elim (detect_cycles g) [ ok _ ↦ false | err _ ↦ true ]
