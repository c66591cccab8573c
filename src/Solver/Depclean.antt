-- ===== src/Solver/Depclean.antt =====
-- internal/solver/depclean.go: the graph of installed packages. Slices and maps of Go are lists.
pub mod Search
pub mod Visit
pub mod Fuel
pub mod Correct
pub mod Orphans
pub mod Safe
mod Tests
use grpm.Base.{
  ℕ, zero, suc, ◌+◌, ◌%◌, ◌^◌, Bool, true, false, not, ◌&&◌, Option, none, some, List, [], ◌∷◌,
  ◌++◌, map, length, if◌then◌else◌, Text, codes, ltb,
}
use grpm.Base.Assoc.{lookup, insert, contains, keys}
use grpm.Base.Result.{Result, ok, err}
use grpm.Pkg.Version.{is_empty}
use grpm.Pkg.Constraint.{Constraint}
use grpm.State.Installed.{InstalledPackage}
use grpm.Solver.BaseAtom.{extract_base_atom, extract_package_atom}

pub record ReverseDependencyGraph (Atom : Type 0) : Type 0 where
  pub dependents : List (Text × List Text)
  pub dependencies : List (Text × List Text)
  pub packages : List (Text × InstalledPackage Atom)

-- A read of a map of lists; a missing key reads as nil.
unfoldable pub atoms_at : Text → List (Text × List Text) → List Text
unfolding lookup
atoms_at k m = elim (lookup k m) [ none ↦ [] | some l ↦ l ]

-- The loop of `extractDependencyAtoms`.
unfoldable pub dependency_atoms : List Constraint → List Text → List Text
unfolding extract_base_atom contains
dependency_atoms [] atoms = atoms
dependency_atoms (dep ∷ deps) atoms =
    let atom = extract_base_atom dep.name in
    dependency_atoms deps
      (if not (is_empty atom) && not (contains atom atoms) then atoms ++ atom ∷ [] else atoms)

-- The loop that appends `atom` to the dependents of each of its dependencies.
unfoldable pub add_dependent : Text → List Text → List (Text × List Text) → List (Text × List Text)
unfolding insert atoms_at
add_dependent atom [] m = m
add_dependent atom (dep ∷ deps) m =
    add_dependent atom deps (insert dep (atoms_at dep m ++ atom ∷ []) m)

unfoldable pub init_dependents : Text → List (Text × List Text) → List (Text × List Text)
unfolding lookup insert
init_dependents atom m = elim (lookup atom m) [ none ↦ insert atom [] m | some l ↦ m ]

module _ {Atom : Type 0} where
  abbrev pub new_graph : ReverseDependencyGraph Atom
  new_graph = record { dependents = []; dependencies = []; packages = [] }

  -- A nil pointer is `none`.
  unfoldable pub add_package :
      ReverseDependencyGraph Atom → Option (InstalledPackage Atom) → ReverseDependencyGraph Atom
  unfolding extract_package_atom dependency_atoms add_dependent init_dependents insert
  add_package g none = g
  add_package g (some installed) = elim installed.pkg [
    | none ↦ g
    | some p ↦
        let atom = extract_package_atom p.name p.version in
        let deps = dependency_atoms p.deps [] in
        record {
          dependents = add_dependent atom deps (init_dependents atom g.dependents);
          dependencies = insert atom deps g.dependencies;
          packages = insert atom installed g.packages;
        }
  ]

  unfoldable pub build_graph :
      List (InstalledPackage Atom) → ReverseDependencyGraph Atom → ReverseDependencyGraph Atom
  unfolding add_package
  build_graph [] g = g
  build_graph (p ∷ ps) g = build_graph ps (add_package g (some p))

  unfoldable pub get_dependents : ReverseDependencyGraph Atom → Text → List Text
  unfolding extract_base_atom atoms_at
  get_dependents g atom = atoms_at (extract_base_atom atom) g.dependents

  unfoldable pub get_dependencies : ReverseDependencyGraph Atom → Text → List Text
  unfolding extract_base_atom atoms_at
  get_dependencies g atom = atoms_at (extract_base_atom atom) g.dependencies

  unfoldable pub has_dependents : ReverseDependencyGraph Atom → Text → Bool
  unfolding extract_base_atom atoms_at
  has_dependents g atom = ltb 0 (length (atoms_at (extract_base_atom atom) g.dependents))

  unfoldable pub package_count : ReverseDependencyGraph Atom → ℕ
  package_count g = length g.packages

  unfoldable pub get_package : ReverseDependencyGraph Atom → Text → Option (InstalledPackage Atom)
  unfolding extract_base_atom lookup
  get_package g atom = lookup (extract_base_atom atom) g.packages
