-- ===== src/Solver/Graph/Cycles/Node.antt =====
-- `dfsDetectCycle` of internal/solver/cycle_detector.go, at one node.
use mathlib.Core.Path.{subst}
use grpm.Base.{
  ℕ, zero, suc, ◌≡◌, ◌⊎◌, inl, inr, refl, sym, arith, false, none, some, List, [], ◌∷◌, ◌++◌,
  Option-cases, Text, text_eq_iff,
}
use grpm.Base.Assoc.{lookup, insert, contains, contains-append}
use grpm.Base.Result.{Result, ok, err}
use grpm.Solver.Graph.{NodeState, unvisited, visiting, visited, GraphNode}
use grpm.Solver.Graph.Cycles.{
  CycleError, cycle_error, out_of_fuel, extract_cycle, each_edge, begin_node, finish,
  dfs_detect_cycle,
}
use grpm.Solver.Graph.Cycles.Colours.{targets, unvisited_count-insert}
use grpm.Solver.Graph.Cycles.Walks.{Chain-append, extract_cycle-IsCycle}
use grpm.Solver.Graph.Cycles.Search.{
  edge, Inv, Ends, Post, Ends-still, edge_of, Inv-begin, Inv-finish, Searches, each_edge-Post,
}

State-cases : (s : NodeState) → (s ≡ unvisited) ⊎ (s ≡ visiting) ⊎ (s ≡ visited)
State-cases unvisited = inl refl
State-cases visiting = inr (inl refl)
State-cases visited = inr (inr refl)

module _ {Atom : Type 0} (name : Text) (nodes : List (Text × GraphNode Atom)) where
  finish_there :
      (n : GraphNode Atom)
      → lookup name nodes ≡ some n
      → finish name (ok nodes)
        ≡ ok (insert name (record n { state = visited; in_stack = false }) nodes)
  unfolding finish
  finish_there n q = rw (finish, q) refl

  module _ (fuel : ℕ) (path : List Text) where
    dfs_absent : lookup name nodes ≡ none → dfs_detect_cycle (suc fuel) name path nodes ≡ ok nodes
    unfolding dfs_detect_cycle
    dfs_absent q = rw (dfs_detect_cycle, q) refl

    module _ (node : GraphNode Atom) (q : lookup name nodes ≡ some node) where
      dfs_done : node.state ≡ visited → dfs_detect_cycle (suc fuel) name path nodes ≡ ok nodes
      unfolding dfs_detect_cycle
      dfs_done s = rw (dfs_detect_cycle, q, s) refl

      dfs_open :
          node.state ≡ visiting
          → dfs_detect_cycle (suc fuel) name path nodes
            ≡ err (cycle_error (extract_cycle path name))
      unfolding dfs_detect_cycle
      dfs_open s = rw (dfs_detect_cycle, q, s) refl

      dfs_fresh :
          node.state ≡ unvisited
          → dfs_detect_cycle (suc fuel) name path nodes
            ≡ finish name (
                each_edge
                  (λ to ns. dfs_detect_cycle fuel to (path ++ name ∷ []) ns)
                  node.dependencies
                  (insert name (begin_node node) nodes))
      unfolding dfs_detect_cycle
      dfs_fresh s = rw (dfs_detect_cycle, q, s) refl

module _ {Atom : Type 0} (graph : List (Text × GraphNode Atom)) where
  module _ (order path : List Text) (nodes : List (Text × GraphNode Atom)) (name : Text)
      (node : GraphNode Atom) (h : Inv graph order path nodes) (e : lookup name nodes ≡ some node)
      (w : node.state ≡ unvisited) where
    not_on_path : contains name path ≡ false
    not_on_path = ground (arith, h.open_nodes name, e, w)

    finish-Ends :
        (nodes' : List (Text × GraphNode Atom))
        (k : Ends graph order
          (path ++ name ∷ [])
          (targets node.dependencies)
          (insert name (begin_node node) nodes)
          nodes')
        (n : GraphNode Atom)
        → lookup name nodes' ≡ some n
        → Ends graph order path
            (name ∷ [])
            nodes
            (insert name (record n { state = visited; in_stack = false }) nodes')
    unfolding contains edge
    finish-Ends nodes' k n e' =
        let n' : GraphNode Atom = record n { state = visited; in_stack = false } in
        let inv' =
          Inv-finish graph k.order' path nodes' name n k.inv not_on_path e'
            (λ v d. ground (arith, d, k.reached v, h.same name, e)) in
        record {
          order' = name ∷ k.order';
          inv = inv';
          grows = λ v m. ground (arith, k.grows v m);
          reached = λ v m q. ground (arith, m);
          work = ground (
            arith,
            k.work,
            unvisited_count-insert name n n' nodes' e',
            unvisited_count-insert name node (begin_node node) nodes e,
            w,
            k.inv.open_nodes name,
            e',
            contains-append name path (name ∷ []),
            text_eq_iff name name,
          );
        }

    finish-Post :
        (r : Result CycleError (List (Text × GraphNode Atom)))
        → Post graph order
            (path ++ name ∷ [])
            (targets node.dependencies)
            (insert name (begin_node node) nodes)
            r
        → Post graph order path (name ∷ []) nodes (finish name r)
    unfolding finish
    finish-Post (err (cycle_error c)) k = k
    finish-Post (err out_of_fuel) k = k
    finish-Post (ok nodes') k = elim (Option-cases (lookup name nodes')) [
      | inl q ↦ absurd (ground (arith, q, k.inv.known name, h.known name, e))
      | inr (n, q) ↦
          subst (Post graph order path (name ∷ []) nodes) (sym (finish_there name nodes' n q))
            (finish-Ends nodes' k n q)
    ]

  pub search-Post : (fuel : ℕ) (path : List Text) → Searches graph fuel path
  search-Post zero path order name nodes h c w = absurd (omega (arith, w))
  search-Post (suc fuel) path order name nodes h c w = elim (Option-cases (lookup name nodes)) [
    | inl q ↦
        subst (Post graph order path (name ∷ []) nodes) (sym (dfs_absent name nodes fuel path q))
          (Ends-still graph order path name nodes h (λ k. ground (arith, k, h.known name, q)))
    | inr (node, q) ↦ elim (State-cases node.state) [
      | inl s ↦
          subst (Post graph order path (name ∷ []) nodes)
            (sym (dfs_fresh name nodes fuel path node q s))
            (finish-Post order path nodes name node h q s _ (
              each_edge-Post graph fuel (path ++ name ∷ []) (search-Post fuel (path ++ name ∷ []))
                node.dependencies order (insert name (begin_node node) nodes)
                (Inv-begin graph order path nodes name node h q s)
                (λ v m k.
                  Chain-append (edge graph) path name v (c (ground (arith, h.known name, q)))
                    (edge_of graph name v order path nodes node h q m k))
                (ground (arith, w, s, unvisited_count-insert name node (begin_node node) nodes q))))
      | inr (inl s) ↦
          subst (Post graph order path (name ∷ []) nodes)
            (sym (dfs_open name nodes fuel path node q s))
            (extract_cycle-IsCycle (edge graph) path name (ground (arith, h.open_nodes name, q, s))
              (c (ground (arith, h.known name, q))))
      | inr (inr s) ↦
          subst (Post graph order path (name ∷ []) nodes)
            (sym (dfs_done name nodes fuel path node q s))
            (Ends-still graph order path name nodes h (λ k. ground (arith, h.done name, q, s)))
    ]
  ]
