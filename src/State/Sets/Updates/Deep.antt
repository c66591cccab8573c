-- ===== src/State/Sets/Updates/Deep.antt =====
-- The deep mode of `CalculateUpdates` in internal/state/sets.go.
use grpm.Base.{
  ℕ, zero, suc, ◌≡◌, refl, arith, true, Option, some, List, [], ◌∷◌, Text, text_eq_refl,
}
use grpm.Base.Assoc.{contains}
use grpm.Pkg.VersionConstraint.{Regexes}
use grpm.Pkg.Package.{Package}
use grpm.State.Database.{PackageDatabase}
use grpm.State.Sets.{PackageSet}
use grpm.State.Sets.Updates.{UpdateInfo, UpdatePlan, UpdateOptions, empty_plan}
use grpm.State.Sets.Updates.Calculate.{
  update_atoms, check_all, process_dependencies, process_updates, add_deep_dependencies,
  calculate_updates,
}

module _ {Atom : Type 0} (r : Regexes) (load_package : Text → Option (Package Atom))
    (db : Option (PackageDatabase Atom)) (opts : UpdateOptions) where
  -- An atom that is processed is left alone.
  process_processed :
      (fuel : ℕ) (atom : Text) (plan : UpdatePlan) (processed : List Text)
      → contains atom processed ≡ true
      → process_dependencies r load_package db opts fuel atom plan processed
        ≡ some (plan, processed)
  unfolding process_dependencies
  process_processed zero atom plan processed h = rw h refl
  process_processed (suc fuel) atom plan processed h = rw h refl

  AllIn : List UpdateInfo → List Text → Type 0
  AllIn us processed =
      (a : Text) → contains a (update_atoms us) ≡ true → contains a processed ≡ true

  process_updates-AllIn :
      (fuel : ℕ) (us : List UpdateInfo) (plan : UpdatePlan) (processed : List Text)
      → AllIn us processed
      → process_updates r load_package db opts fuel us plan processed ≡ some (plan, processed)
  unfolding process_updates AllIn update_atoms contains
  process_updates-AllIn fuel [] plan processed h = refl
  process_updates-AllIn fuel (u ∷ us) plan processed h = ground (
    arith,
    process_processed fuel u.atom plan processed (h u.atom (ground (arith, text_eq_refl u.atom))),
    process_updates-AllIn fuel us plan processed (λ a m. h a (ground arith)),
  )

  -- With or without the deep option, and however deep the recursion may go, CalculateUpdates
  -- returns the plan with the checks of the atoms of the set: the deep mode adds no dependency.
  pub calculate_updates-deep :
      (fuel : ℕ) (s : PackageSet)
      → calculate_updates r load_package db opts fuel s
        ≡ some (check_all r load_package db opts s.atoms empty_plan)
  unfolding calculate_updates add_deep_dependencies AllIn
  calculate_updates-deep fuel s =
      let plan = check_all r load_package db opts s.atoms empty_plan in
      ground
        (arith, process_updates-AllIn fuel plan.updates plan (update_atoms plan.updates) (λ a m. m))
