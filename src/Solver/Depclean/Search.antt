-- ===== src/Solver/Depclean/Search.antt =====
-- `markNeededPackages` of internal/solver/depclean.go: the search from the @world set. A Go map from
-- atoms to `true` is the list of its keys. The loop over the queue takes fuel: as much as there are
-- atoms marked at the start and dependencies in the graph (Fuel).
use grpm.Base.{ℕ, zero, suc, ◌+◌, List, [], ◌∷◌, ◌++◌, length, if◌then◌else◌, Text}
use grpm.Base.Assoc.{contains}
use grpm.Base.Result.{Result, ok, err}
use grpm.State.Sets.{SetError}
use grpm.Solver.BaseAtom.{extract_base_atom}
use grpm.Solver.Depclean.{ReverseDependencyGraph, get_dependencies}

unfoldable pub mark : Text → List Text → List Text
unfolding contains
mark k l = if contains k l then l else l ++ k ∷ []

-- The atoms of a list are marked as needed, by their base.
unfoldable pub mark_all : List Text → List Text → List Text
unfolding extract_base_atom mark
mark_all [] needed = needed
mark_all (atom ∷ atoms) needed = mark_all atoms (mark (extract_base_atom atom) needed)

-- The loop over the dependencies of the package that was taken from the queue: what is needed, and
-- the queue.
unfoldable pub visit_dependencies : List Text → List Text → List Text → List Text × List Text
unfolding extract_base_atom contains
visit_dependencies [] needed queue = (needed, queue)
visit_dependencies (dep ∷ deps) needed queue =
    let base_atom = extract_base_atom dep in
    if contains base_atom needed
    then visit_dependencies deps needed queue
    else visit_dependencies deps (needed ++ base_atom ∷ []) (queue ++ base_atom ∷ [])

pub data DepcleanError : Type 0 where
  nil_database : DepcleanError
  load_world_failed : SetError → DepcleanError
  out_of_fuel : DepcleanError

-- How many dependencies the graph lists.
unfoldable pub edge_count : List (Text × List Text) → ℕ
edge_count [] = 0
edge_count ((k, l) ∷ m) = length l + edge_count m

module _ {Atom : Type 0} (g : ReverseDependencyGraph Atom) where
  unfoldable pub search : ℕ → List Text → List Text → List Text → Result DepcleanError (List Text)
  unfolding get_dependencies visit_dependencies contains
  search fuel needed processed [] = ok needed
  search zero needed processed (current ∷ queue) = err out_of_fuel
  search (suc fuel) needed processed (current ∷ queue) =
      let (needed', queue') = visit_dependencies (get_dependencies g current) needed queue in
      let skipped = search fuel needed processed queue in
      let visited = search fuel needed' (current ∷ processed) queue' in
      if contains current processed then skipped else visited

  -- `exclude` is the option, `world` the atoms of the set.
  unfoldable pub mark_needed_packages : List Text → List Text → Result DepcleanError (List Text)
  unfolding search mark_all edge_count
  mark_needed_packages exclude world =
      let needed = mark_all world (mark_all exclude []) in
      search (length needed + edge_count g.dependencies) needed [] needed
