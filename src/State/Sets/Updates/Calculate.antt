-- ===== src/State/Sets/Updates/Calculate.antt =====
-- `CalculateUpdates` of internal/state/sets.go over the atoms of a set, and its recursion over
-- dependencies, which takes fuel.
use grpm.Base.{ℕ, zero, suc, Option, none, some, List, [], ◌∷◌, if◌then◌else◌, Text}
use grpm.Base.Assoc.{contains}
use grpm.Pkg.VersionConstraint.{Regexes}
use grpm.Pkg.Constraint.{Constraint}
use grpm.Pkg.Package.{Package}
use grpm.State.Database.{PackageDatabase}
use grpm.State.Sets.{PackageSet}
use grpm.State.Sets.Updates.{
  UpdateInfo, UpdatePlan, UpdateOptions, empty_plan, add_update, add_found, check_package_update,
}

unfoldable pub update_atoms : List UpdateInfo → List Text
update_atoms [] = []
update_atoms (u ∷ us) = u.atom ∷ update_atoms us

module _ {Atom : Type 0} (r : Regexes) (load_package : Text → Option (Package Atom))
    (db : Option (PackageDatabase Atom)) (opts : UpdateOptions) where
  abbrev pub add_checked : Option (Option UpdateInfo) → UpdatePlan → UpdatePlan
  add_checked none plan = plan
  add_checked (some found) plan = add_found found plan

  -- The loop over the atoms of the set.
  unfoldable pub check_all : List Text → UpdatePlan → UpdatePlan
  unfolding check_package_update add_update
  check_all [] plan = plan
  check_all (atom ∷ atoms) plan =
      check_all atoms (add_checked (check_package_update r load_package db opts atom) plan)

  -- The plan and the map `processed`, as the list of its keys; `none` is the model's lack of fuel.
  abbrev pub Progress : Type 0
  Progress = Option (UpdatePlan × List Text)

  -- The loop of `processDependencies`; `recurse` is its call of itself.
  unfoldable pub process_each :
      (Text → UpdatePlan → List Text → Progress)
      → List Constraint
      → UpdatePlan
      → List Text
      → Progress
  unfolding contains check_package_update add_update
  process_each recurse [] plan processed = some (plan, processed)
  process_each recurse (dep ∷ deps) plan processed =
      let skipped = process_each recurse deps plan processed in
      let next = λ (result : UpdatePlan × List Text). process_each recurse deps result.0 result.1 in
      if contains dep.name processed
      then skipped
      else elim (check_package_update r load_package db opts dep.name) [
        | none ↦ skipped
        | some found ↦ elim (recurse dep.name (add_found found plan) processed) [
          | none ↦ none
          | some result ↦ next result
        ]
      ]

  unfoldable pub process_dependencies : ℕ → Text → UpdatePlan → List Text → Progress
  unfolding contains process_each
  process_dependencies zero atom plan processed =
      if contains atom processed then some (plan, processed) else none
  process_dependencies (suc fuel) atom plan processed =
      let processed' = atom ∷ processed in
      let loaded : Progress = elim (load_package atom) [
        | none ↦ some (plan, processed')
        | some p ↦ process_each (process_dependencies fuel) p.deps plan processed'
      ] in
      if contains atom processed then some (plan, processed) else loaded

  -- The loop of `addDeepDependencies` over the updates that the plan had before it.
  unfoldable pub process_updates : ℕ → List UpdateInfo → UpdatePlan → List Text → Progress
  unfolding process_dependencies
  process_updates fuel [] plan processed = some (plan, processed)
  process_updates fuel (u ∷ us) plan processed =
      elim (process_dependencies fuel u.atom plan processed) [
        | none ↦ none
        | some (plan', processed') ↦ process_updates fuel us plan' processed'
      ]

  unfoldable pub add_deep_dependencies : ℕ → UpdatePlan → Option UpdatePlan
  unfolding process_updates update_atoms
  add_deep_dependencies fuel plan =
      elim (process_updates fuel plan.updates plan (update_atoms plan.updates)) [
        | none ↦ none
        | some (plan', processed) ↦ some plan'
      ]

  unfoldable pub calculate_updates : ℕ → PackageSet → Option UpdatePlan
  unfolding check_all add_deep_dependencies
  calculate_updates fuel s =
      let plan = check_all s.atoms empty_plan in
      if opts.deep then add_deep_dependencies fuel plan else some plan
