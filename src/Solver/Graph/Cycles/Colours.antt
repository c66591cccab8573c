-- ===== src/Solver/Graph/Cycles/Colours.antt =====
-- The states of the nodes during the search of internal/solver/cycle_detector.go.
use grpm.Base.{
  ℕ, ◌+◌, ◌≤◌, ◌≡◌, arith, Bool, true, false, Option, none, some, List, [], ◌∷◌, length,
  if◌then◌else◌, is_some, Text,
}
use grpm.Base.Assoc.{lookup, insert}
use grpm.Solver.Graph.{NodeState, unvisited, visiting, visited, GraphEdge, GraphNode}

abbrev is_unvisited : NodeState → Bool
is_unvisited unvisited = true
is_unvisited visiting = false
is_unvisited visited = false

abbrev is_visiting : NodeState → Bool
is_visiting unvisited = false
is_visiting visiting = true
is_visiting visited = false

abbrev is_done : NodeState → Bool
is_done unvisited = false
is_done visiting = false
is_done visited = true

abbrev pub targets : List GraphEdge → List Text
targets [] = []
targets (edge ∷ edges) = edge.to ∷ targets edges

module _ {Atom : Type 0} where
  abbrev pub white : Option (GraphNode Atom) → Bool
  white none = false
  white (some n) = is_unvisited n.state

  abbrev pub grey : Option (GraphNode Atom) → Bool
  grey none = false
  grey (some n) = is_visiting n.state

  abbrev pub black : Option (GraphNode Atom) → Bool
  black none = false
  black (some n) = is_done n.state

  abbrev pub flagged : Option (GraphNode Atom) → Bool
  flagged none = false
  flagged (some n) = n.is_visited

  abbrev pub targets_of : Option (GraphNode Atom) → List Text
  targets_of none = []
  targets_of (some n) = targets n.dependencies

  -- A node that exists has one of the three states.
  pub some_colour :
      (o : Option (GraphNode Atom))
      → is_some o ≡ true
      → white o ≡ false
      → grey o ≡ false
      → black o ≡ true
  some_colour none h w g = cc
  some_colour (some n) h w g = ground arith

  -- How many nodes are not visited yet; a later entry under the same key counts too.
  unfoldable pub unvisited_count : List (Text × GraphNode Atom) → ℕ
  unvisited_count [] = 0
  unvisited_count ((name, n) ∷ nodes) =
      (if is_unvisited n.state then 1 else 0) + unvisited_count nodes

  pub unvisited_count-insert :
      (name : Text) (n n' : GraphNode Atom) (nodes : List (Text × GraphNode Atom))
      → lookup name nodes ≡ some n
      → unvisited_count (insert name n' nodes) + (if is_unvisited n.state then 1 else 0)
        ≡ unvisited_count nodes + (if is_unvisited n'.state then 1 else 0)
  unfolding unvisited_count lookup insert
  unvisited_count-insert name n n' [] h = absurd (ground arith)
  unvisited_count-insert name n n' ((k, m) ∷ nodes) h =
      ground (arith, unvisited_count-insert name n n' nodes)

  pub unvisited_count-le :
      (nodes : List (Text × GraphNode Atom)) → unvisited_count nodes ≤ length nodes
  unfolding unvisited_count
  unvisited_count-le [] = omega arith
  unvisited_count-le ((k, m) ∷ nodes) = ground (arith, unvisited_count-le nodes)
