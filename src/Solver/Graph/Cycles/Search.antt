-- ===== src/Solver/Graph/Cycles/Search.antt =====
-- The search from one node in internal/solver/cycle_detector.go: what it keeps, and what it finds.
use grpm.Base.{
  ℕ, ◌+◌, ◌≤◌, ◌≡◌, arith, Bool, true, false, ◌&&◌, some, List, [], ◌∷◌, ◌++◌, is_some, Text,
  text_eq_iff,
}
use grpm.Base.Assoc.{lookup, insert, lookup-insert, contains, contains-append}
use grpm.Base.Result.{Result, ok, err}
use grpm.Solver.Graph.{unvisited, visited, GraphEdge, GraphNode}
use grpm.Solver.Graph.Cycles.{
  CycleError, cycle_error, out_of_fuel, each_edge, begin_node, dfs_detect_cycle,
}
use grpm.Solver.Graph.Cycles.Colours.{
  targets, white, grey, black, flagged, targets_of, unvisited_count,
}
use grpm.Solver.Graph.Cycles.Walks.{Chain, IsCycle, IsOrder}

-- `graph` is the map before the search.
module _ {Atom : Type 0} (graph : List (Text × GraphNode Atom)) where
  -- A dependency on a node that exists.
  unfoldable pub edge : Text → Text → Bool
  unfolding lookup contains
  edge u v = contains v (targets_of (lookup u graph)) && is_some (lookup v graph)

  -- `path` is what is being visited, `order` what is done, the last one first.
  pub record Inv (order path : List Text) (nodes : List (Text × GraphNode Atom)) : Type 0 where
    pub done : (v : Text) → black (lookup v nodes) ≡ contains v order
    pub open_nodes : (v : Text) → grey (lookup v nodes) ≡ contains v path
    pub flags : (v : Text) → flagged (lookup v nodes) ≡ true → white (lookup v nodes) ≡ false
    pub known : (v : Text) → is_some (lookup v nodes) ≡ is_some (lookup v graph)
    pub same : (v : Text) → targets_of (lookup v nodes) ≡ targets_of (lookup v graph)
    pub sorted : IsOrder edge order

  -- The outcome of a search that began with `order` and `nodes`, for the targets `names`.
  pub record Ends (order path names : List Text) (nodes nodes' : List (Text × GraphNode Atom))
      : Type 0 where
    pub order' : List Text
    pub inv : Inv order' path nodes'
    pub grows : (v : Text) → contains v order ≡ true → contains v order' ≡ true
    pub reached :
        (v : Text)
        → contains v names ≡ true
        → is_some (lookup v graph) ≡ true
        → contains v order' ≡ true
    pub work : unvisited_count nodes' ≤ unvisited_count nodes

  abbrev pub Post :
      (order path names : List Text)
      → List (Text × GraphNode Atom)
      → Result CycleError (List (Text × GraphNode Atom))
      → Type 0
  Post order path names nodes (ok nodes') = Ends order path names nodes nodes'
  Post order path names nodes (err (cycle_error c)) = IsCycle edge c
  Post order path names nodes (err out_of_fuel) = ⊥

  pub Ends-refl :
      (order path : List Text) (nodes : List (Text × GraphNode Atom))
      → Inv order path nodes
      → Ends order path [] nodes nodes
  unfolding contains
  Ends-refl order path nodes h = record {
    order' = order;
    inv = h;
    grows = λ v m. m;
    reached = λ v m k. cc;
    work = omega arith;
  }

  pub Inv-begin :
      (order path : List Text) (nodes : List (Text × GraphNode Atom)) (name : Text)
      (node : GraphNode Atom)
      → Inv order path nodes
      → lookup name nodes ≡ some node
      → node.state ≡ unvisited
      → Inv order (path ++ name ∷ []) (insert name (begin_node node) nodes)
  unfolding contains
  Inv-begin order path nodes name node h e w =
      let at = λ (v : Text). lookup-insert name v (begin_node node) nodes in
      record {
        done = λ v. ground (arith, h.done v, at v, text_eq_iff name v, e, w);
        open_nodes = λ v. ground (
          arith,
          h.open_nodes v,
          at v,
          text_eq_iff name v,
          e,
          w,
          contains-append v path (name ∷ []),
        );
        flags = λ v. ground (arith, h.flags v, at v, text_eq_iff name v, e, w);
        known = λ v. ground (arith, h.known v, at v, text_eq_iff name v, e, w);
        same = λ v. ground (arith, h.same v, at v, text_eq_iff name v, e, w);
        sorted = h.sorted;
      }

  pub Inv-finish :
      (order path : List Text) (nodes : List (Text × GraphNode Atom)) (name : Text)
      (n : GraphNode Atom)
      → Inv order (path ++ name ∷ []) nodes
      → contains name path ≡ false
      → lookup name nodes ≡ some n
      → ((v : Text) → edge name v ≡ true → contains v order ≡ true)
      → Inv (name ∷ order) path (insert name (record n { state = visited; in_stack = false }) nodes)
  unfolding contains
  Inv-finish order path nodes name n h p e down =
      let n' : GraphNode Atom = record n { state = visited; in_stack = false } in
      let at = λ (v : Text). lookup-insert name v n' nodes in
      record {
        done = λ v. ground (arith, h.done v, at v, text_eq_iff name v, e);
        open_nodes = λ v. ground (
          arith,
          h.open_nodes v,
          at v,
          text_eq_iff name v,
          e,
          p,
          contains-append v path (name ∷ []),
        );
        flags = λ v. ground (arith, h.flags v, at v, text_eq_iff name v, e);
        known = λ v. ground (arith, h.known v, at v, text_eq_iff name v, e);
        same = λ v. ground (arith, h.same v, at v, text_eq_iff name v, e);
        sorted = (down, h.sorted);
      }

  pub Post-then :
      (order path ts : List Text) (t : Text) (nodes nodes' : List (Text × GraphNode Atom))
      (e : Ends order path (t ∷ []) nodes nodes')
      (r : Result CycleError (List (Text × GraphNode Atom)))
      → Post e.order' path ts nodes' r
      → Post order path (t ∷ ts) nodes r
  unfolding contains
  Post-then order path ts t nodes nodes' e (err (cycle_error c)) h = h
  Post-then order path ts t nodes nodes' e (err out_of_fuel) h = h
  Post-then order path ts t nodes nodes' e (ok nodes'') h = record {
    order' = h.order';
    inv = h.inv;
    grows = λ v m. h.grows v (e.grows v m);
    reached = λ v m k. ground (arith, m, k, h.reached v, e.reached v, h.grows v);
    work = omega (arith, h.work, e.work);
  }

  pub and_then :
      (order path : List Text) (t : Text) (ts : List Text) (nodes : List (Text × GraphNode Atom))
      (next : List (Text × GraphNode Atom) → Result CycleError (List (Text × GraphNode Atom)))
      (r : Result CycleError (List (Text × GraphNode Atom)))
      → Post order path (t ∷ []) nodes r
      → ((nodes' : List (Text × GraphNode Atom)) (e : Ends order path (t ∷ []) nodes nodes')
          → Post e.order' path ts nodes' (next nodes'))
      → Post order path
          (t ∷ ts)
          nodes
          (elim r as (λ x. Result CycleError (List (Text × GraphNode Atom))) [
            | err e ↦ err e
            | ok nodes' ↦ next nodes'
          ])
  and_then order path t ts nodes next (err (cycle_error c)) h rest = h
  and_then order path t ts nodes next (err out_of_fuel) h rest = h
  and_then order path t ts nodes next (ok nodes') h rest =
      Post-then order path ts t nodes nodes' h (next nodes') (rest nodes' h)

  -- Nothing is done for a node that is done, or that does not exist.
  pub Ends-still :
      (order path : List Text) (name : Text) (nodes : List (Text × GraphNode Atom))
      → Inv order path nodes
      → (is_some (lookup name graph) ≡ true → contains name order ≡ true)
      → Ends order path (name ∷ []) nodes nodes
  unfolding contains
  Ends-still order path name nodes h c = record {
    order' = order;
    inv = h;
    grows = λ v m. m;
    reached = λ v m k. ground (arith, m, k, c, text_eq_iff name v);
    work = omega arith;
  }

  pub edge_of :
      (u v : Text) (order path : List Text) (nodes : List (Text × GraphNode Atom))
      (n : GraphNode Atom)
      → Inv order path nodes
      → lookup u nodes ≡ some n
      → contains v (targets n.dependencies) ≡ true
      → is_some (lookup v graph) ≡ true
      → edge u v ≡ true
  unfolding edge
  edge_of u v order path nodes n h e m k = ground (arith, h.same u, e, m, k)

  -- The search keeps its promise for every node, with this fuel and behind this path.
  abbrev pub Searches : ℕ → List Text → Type 0
  Searches fuel path =
      (order : List Text) (name : Text) (nodes : List (Text × GraphNode Atom))
      → Inv order path nodes
      → (is_some (lookup name graph) ≡ true → Chain edge path name)
      → unvisited_count nodes + 1 ≤ fuel
      → Post order path (name ∷ []) nodes (dfs_detect_cycle fuel name path nodes)

  pub each_edge-Post :
      (fuel : ℕ) (path : List Text)
      → Searches fuel path
      → (edges : List GraphEdge) (order : List Text) (nodes : List (Text × GraphNode Atom))
      → Inv order path nodes
      → ((v : Text)
          → contains v (targets edges) ≡ true
          → is_some (lookup v graph) ≡ true
          → Chain edge path v)
      → unvisited_count nodes + 1 ≤ fuel
      → Post order path
          (targets edges)
          nodes
          (each_edge (λ to ns. dfs_detect_cycle fuel to path ns) edges nodes)
  unfolding each_edge contains
  each_edge-Post fuel path ih [] order nodes h c w = Ends-refl order path nodes h
  each_edge-Post fuel path ih (edge' ∷ edges) order nodes h c w =
      and_then order path edge'.to (targets edges) nodes
        (each_edge (λ to ns. dfs_detect_cycle fuel to path ns) edges)
        (dfs_detect_cycle fuel edge'.to path nodes)
        (ih order edge'.to nodes h (c edge'.to (ground (arith, text_eq_iff edge'.to edge'.to))) w)
        (λ nodes' e.
          each_edge-Post fuel path ih edges e.order' nodes' e.inv (λ v m. c v (ground (arith, m)))
            (omega (arith, e.work, w)))
