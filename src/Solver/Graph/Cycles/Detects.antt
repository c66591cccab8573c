-- ===== src/Solver/Graph/Cycles/Detects.antt =====
-- `DetectCycles` of internal/solver/cycle_detector.go as a whole.
use grpm.Base.{
  ℕ, suc, ◌+◌, ◌≤◌, ◌≡◌, ◌⊎◌, inl, inr, refl, arith, true, false, Option, none, some, List, [], ◌∷◌,
  length, is_some, if_rule, Text,
}
use grpm.Base.Assoc.{lookup, contains, keys}
use grpm.Base.Result.{Result, ok, err}
use grpm.Solver.Graph.{unvisited, GraphNode, DependencyGraph, reset_nodes}
use grpm.Solver.Graph.Cycles.{
  CycleError, cycle_error, out_of_fuel, dfs_detect_cycle, from_roots, from_rest, seen,
  detect_cycles,
}
use grpm.Solver.Graph.Cycles.Colours.{some_colour, unvisited_count, unvisited_count-le}
use grpm.Solver.Graph.Cycles.Walks.{Walk, one, more, IsCycle, IsOrder-acyclic}
use grpm.Solver.Graph.Cycles.Search.{
  edge, Inv, Ends, Post, Ends-refl, Ends-still, Post-then, and_then,
}
use grpm.Solver.Graph.Cycles.Node.{search-Post}

module _ {Atom : Type 0} (graph : List (Text × GraphNode Atom)) where
  from_roots-Post :
      (fuel : ℕ) (names order : List Text) (nodes : List (Text × GraphNode Atom))
      → Inv graph order [] nodes
      → unvisited_count nodes + 1 ≤ fuel
      → Post graph order [] names nodes (from_roots fuel names nodes)
  unfolding from_roots
  from_roots-Post fuel [] order nodes h w = Ends-refl graph order [] nodes h
  from_roots-Post fuel (name ∷ names) order nodes h w =
      and_then graph order [] name names nodes (from_roots fuel names)
        (dfs_detect_cycle fuel name [] nodes)
        (search-Post graph fuel [] order name nodes h (λ k. tt) w)
        (λ nodes' e. from_roots-Post fuel names e.order' nodes' e.inv (omega (arith, e.work, w)))

  seen-still :
      (order : List Text) (name : Text) (nodes : List (Text × GraphNode Atom))
      → Inv graph order [] nodes
      → seen (lookup name nodes) ≡ true
      → Ends graph order [] (name ∷ []) nodes nodes
  unfolding contains
  seen-still order name nodes h s = Ends-still graph order [] name nodes h (λ k. ground (
    arith,
    k,
    s,
    h.known name,
    h.flags name,
    h.open_nodes name,
    h.done name,
    some_colour (lookup name nodes),
  ))

  from_rest-Post :
      (fuel : ℕ) (names order : List Text) (nodes : List (Text × GraphNode Atom))
      → Inv graph order [] nodes
      → unvisited_count nodes + 1 ≤ fuel
      → Post graph order [] names nodes (from_rest fuel names nodes)
  unfolding from_rest
  from_rest-Post fuel [] order nodes h w = Ends-refl graph order [] nodes h
  from_rest-Post fuel (name ∷ names) order nodes h w =
      if_rule (Post graph order [] (name ∷ names) nodes) (seen (lookup name nodes)) _ _
        (λ s.
          let e = seen-still order name nodes h s in
          Post-then graph order [] names name nodes nodes e (from_rest fuel names nodes)
            (from_rest-Post fuel names e.order' nodes e.inv w))
        (λ s.
          and_then graph order [] name names nodes (from_rest fuel names)
            (dfs_detect_cycle fuel name [] nodes)
            (search-Post graph fuel [] order name nodes h (λ k. tt) w)
            (λ nodes' e.
              from_rest-Post fuel names e.order' nodes' e.inv (omega (arith, e.work, w))))

module _ {Atom : Type 0} where
  abbrev reset : Option (GraphNode Atom) → Option (GraphNode Atom)
  reset none = none
  reset (some n) = some (record n { is_visited = false; in_stack = false; state = unvisited })

  lookup-reset_nodes :
      (v : Text) (nodes : List (Text × GraphNode Atom))
      → lookup v (reset_nodes nodes) ≡ reset (lookup v nodes)
  unfolding lookup reset_nodes
  lookup-reset_nodes v [] = refl
  lookup-reset_nodes v ((k, n) ∷ nodes) = ground (arith, lookup-reset_nodes v nodes)

  length-reset_nodes :
      (nodes : List (Text × GraphNode Atom)) → length (reset_nodes nodes) ≡ length nodes
  unfolding reset_nodes
  length-reset_nodes [] = refl
  length-reset_nodes ((k, n) ∷ nodes) = omega (arith, length-reset_nodes nodes)

  contains-keys :
      (v : Text) (nodes : List (Text × GraphNode Atom))
      → is_some (lookup v nodes) ≡ true
      → contains v (keys nodes) ≡ true
  unfolding lookup contains
  contains-keys v [] k = cc
  contains-keys v ((j, n) ∷ nodes) k = ground (arith, contains-keys v nodes)

  Inv-reset_nodes : (nodes : List (Text × GraphNode Atom)) → Inv nodes [] [] (reset_nodes nodes)
  unfolding contains
  Inv-reset_nodes nodes =
      let at = λ (v : Text). lookup-reset_nodes v nodes in
      record {
        done = λ v. ground (arith, at v);
        open_nodes = λ v. ground (arith, at v);
        flags = λ v. ground (arith, at v);
        known = λ v. ground (arith, at v);
        same = λ v. ground (arith, at v);
        sorted = tt;
      }

  walk_known :
      (nodes : List (Text × GraphNode Atom)) (u v : Text)
      → Walk (edge nodes) u v
      → is_some (lookup u nodes) ≡ true
  unfolding edge contains
  walk_known nodes u v (one _ _ e) = ground (arith, e)
  walk_known nodes u v (more _ w _ e k) = ground (arith, e)

  module _ (g : DependencyGraph Atom) where
    abbrev Verdict : Result CycleError (List (Text × GraphNode Atom)) → Type 0
    Verdict (ok nodes) = (v : Text) → ¬ Walk (edge g.nodes) v v
    Verdict (err (cycle_error c)) = IsCycle (edge g.nodes) c
    Verdict (err out_of_fuel) = ⊥

    Post-Verdict :
        (order : List Text) (nodes : List (Text × GraphNode Atom))
        (r : Result CycleError (List (Text × GraphNode Atom)))
        → Post g.nodes order [] (keys g.nodes) nodes r
        → Verdict r
    Post-Verdict order nodes (err (cycle_error c)) h = h
    Post-Verdict order nodes (err out_of_fuel) h = h
    Post-Verdict order nodes (ok nodes') h = λ v k.
        let there = walk_known g.nodes v v k in
        IsOrder-acyclic (edge g.nodes) h.order' v h.inv.sorted
          (h.reached v (contains-keys v g.nodes there) there) k

    abbrev fuel : ℕ
    fuel = suc (length g.nodes)

    start_fuel : unvisited_count (reset_nodes g.nodes) + 1 ≤ fuel
    start_fuel = omega (arith, unvisited_count-le (reset_nodes g.nodes), length-reset_nodes g.nodes)

    after_roots :
        (r : Result CycleError (List (Text × GraphNode Atom)))
        → Post g.nodes [] [] g.roots (reset_nodes g.nodes) r
        → Verdict (elim r as (λ x. Result CycleError (List (Text × GraphNode Atom))) [
          | err e ↦ err e
          | ok nodes ↦ from_rest fuel (keys g.nodes) nodes
        ])
    after_roots (err (cycle_error c)) h = h
    after_roots (err out_of_fuel) h = h
    after_roots (ok nodes) h = Post-Verdict h.order' nodes (from_rest fuel (keys g.nodes) nodes) (
        from_rest-Post g.nodes fuel (keys g.nodes) h.order' nodes h.inv
          (omega (arith, h.work, start_fuel)))

    detect_cycles-Verdict : Verdict (detect_cycles g)
    unfolding detect_cycles
    detect_cycles-Verdict = after_roots (from_roots fuel g.roots (reset_nodes g.nodes)) (
        from_roots-Post g.nodes fuel g.roots [] (reset_nodes g.nodes) (Inv-reset_nodes g.nodes)
          start_fuel)

    abbrev Decided : Result CycleError (List (Text × GraphNode Atom)) → Type 0
    Decided r =
        ((nodes : List (Text × GraphNode Atom)) × (r ≡ ok nodes)
          × ((v : Text) → ¬ Walk (edge g.nodes) v v))
        ⊎ ((c : List Text) × (r ≡ err (cycle_error c)) × IsCycle (edge g.nodes) c)

    Verdict-Decided : (r : Result CycleError (List (Text × GraphNode Atom))) → Verdict r → Decided r
    Verdict-Decided (ok nodes) h = inl (nodes, refl, h)
    Verdict-Decided (err (cycle_error c)) h = inr (c, refl, h)
    Verdict-Decided (err out_of_fuel) h = absurd h

    -- On every graph, also with dependencies on packages that are no nodes, DetectCycles ends:
    -- either it returns no error, and no package depends on itself through any number of
    -- dependencies, or it reports a list of packages each of which depends on the next one and the
    -- last one on the first.
    pub detect_cycles-IsCycle :
        ((nodes : List (Text × GraphNode Atom)) × (detect_cycles g ≡ ok nodes)
          × ((v : Text) → ¬ Walk (edge g.nodes) v v))
        ⊎ ((c : List Text) × (detect_cycles g ≡ err (cycle_error c)) × IsCycle (edge g.nodes) c)
    detect_cycles-IsCycle = Verdict-Decided (detect_cycles g) detect_cycles-Verdict
