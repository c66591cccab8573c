-- ===== src/Solver/Graph.antt =====
-- internal/solver/graph.go: the dependency graph of a resolution.
pub mod Cycles
use grpm.Base.{
  ℕ, suc, Bool, true, false, Option, none, some, List, [], ◌∷◌, ◌++◌, length, if◌then◌else◌, Text,
}
use grpm.Base.Int.{ℤ, pos, negsuc}
use grpm.Base.Assoc.{lookup, insert}
use grpm.Base.Result.{Result, ok, err}
use grpm.Pkg.Constraint.{Constraint}
use grpm.Pkg.Package.{Package}

pub data NodeState : Type 0 where
  unvisited visiting visited : NodeState

pub data EdgeType : Type 0 where
  runtime buildtime build : EdgeType

-- `source` is the field `From`, and `kind` the field `Type`.
pub record GraphEdge : Type 0 where
  pub source : Text
  pub to : Text
  pub constraint : Constraint
  pub kind : EdgeType

pub record GraphNode (Atom : Type 0) : Type 0 where
  pub pkg : Package Atom
  pub dependencies : List GraphEdge
  pub dependents : List GraphEdge
  pub depth : ℤ
  pub is_visited : Bool
  pub in_stack : Bool
  pub state : NodeState

pub record DependencyGraph (Atom : Type 0) : Type 0 where
  pub nodes : List (Text × GraphNode Atom)
  pub edges : List GraphEdge
  pub roots : List Text

pub data GraphError : Type 0 where
  source_not_found target_not_found : Text → GraphError

module _ {Atom : Type 0} where
  abbrev pub new_dependency_graph : DependencyGraph Atom
  new_dependency_graph = record { nodes = []; edges = []; roots = [] }

  unfoldable pub add_package : DependencyGraph Atom → Package Atom → Bool → DependencyGraph Atom
  unfolding lookup insert
  add_package g p is_root =
      let node : GraphNode Atom = record {
        pkg = p;
        dependencies = [];
        dependents = [];
        depth = if is_root then pos 0 else negsuc 0;
        is_visited = false;
        in_stack = false;
        state = unvisited;
      } in
      elim (lookup p.name g.nodes) [
        | some _ ↦ g
        | none ↦ record g {
          nodes = insert p.name node g.nodes;
          roots = if is_root then g.roots ++ p.name ∷ [] else g.roots;
        }
      ]

  -- Both nodes are changed through pointers, which may be the same.
  unfoldable pub link : GraphEdge → List (Text × GraphNode Atom) → List (Text × GraphNode Atom)
  unfolding lookup insert
  link edge nodes =
      let nodes' : List (Text × GraphNode Atom) = elim (lookup edge.source nodes) [
        | none ↦ nodes
        | some n ↦
            insert edge.source (record n { dependencies = n.dependencies ++ edge ∷ [] }) nodes
      ] in
      elim (lookup edge.to nodes') [
        | none ↦ nodes'
        | some n ↦ insert edge.to (record n { dependents = n.dependents ++ edge ∷ [] }) nodes'
      ]

  unfoldable pub add_dependency :
      DependencyGraph Atom
      → Text
      → Text
      → Constraint
      → EdgeType
      → Result GraphError (DependencyGraph Atom)
  unfolding lookup link
  add_dependency g source to constraint kind =
      let edge : GraphEdge = record {
        source = source;
        to = to;
        constraint = constraint;
        kind = kind;
      } in
      elim (lookup source g.nodes) [
        | none ↦ err (source_not_found source)
        | some _ ↦ elim (lookup to g.nodes) [
          | none ↦ err (target_not_found to)
          | some _ ↦ ok (record g { edges = g.edges ++ edge ∷ []; nodes = link edge g.nodes })
        ]
      ]

  unfoldable pub get_node : DependencyGraph Atom → Text → Option (GraphNode Atom)
  unfolding lookup
  get_node g name = lookup name g.nodes

  unfoldable pub package_count : DependencyGraph Atom → ℕ
  package_count g = length g.nodes

  unfoldable pub edge_count : DependencyGraph Atom → ℕ
  edge_count g = length g.edges

  -- The loop of `ResetVisited`.
  unfoldable pub reset_nodes : List (Text × GraphNode Atom) → List (Text × GraphNode Atom)
  reset_nodes [] = []
  reset_nodes ((name, n) ∷ nodes) =
      (name, record n { is_visited = false; in_stack = false; state = unvisited })
      ∷ reset_nodes nodes
