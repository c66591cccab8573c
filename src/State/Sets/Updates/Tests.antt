-- ===== src/State/Sets/Updates/Tests.antt =====
-- Runs of internal/state/sets.go on a small repository.
use grpm.Base.{ℕ, ◌≡◌, refl, true, Option, none, some, [], ◌∷◌, Text, codes, text_eq, if◌then◌else◌}
use grpm.Base.Result.{ok}
use grpm.Pkg.VersionConstraint.{Regexes}
use grpm.Pkg.Constraint.{new_simple_constraint}
use grpm.Pkg.Package.{Package, new_package}
use grpm.State.Sets.{
  PackageSet, SetManager, OpenedFile, unreadable, content, new_package_set, add_to_world,
}
use grpm.State.Sets.Updates.{UpdateOptions, UpdatePlan, empty_plan, default_update_options}
use grpm.State.Sets.Updates.Calculate.{check_all, calculate_updates}
use grpm.State.Sets.Updates.Deep.{calculate_updates-deep}

abbrev regexes : Regexes
regexes = record {
  versions = record {
    digit_match = λ s. true;
    revision_match = λ s. none;
    suffix_starts = λ s. [];
    suffix_matches = λ s. [];
    main_match = λ s. some (s, []);
  };
  legacy_find_all = λ s. [];
}

-- The package needs another one, which is in the repository as well.
abbrev repository : Text → Option (Package Text)
repository name =
    if text_eq name (codes "a/top")
    then some (record (new_package (codes "a/top") (codes "2") (codes "0")) {
      deps = new_simple_constraint (codes "a/lib") ∷ [];
    })
    else if text_eq name (codes "a/lib")
    then some (new_package (codes "a/lib") (codes "1") (codes "0"))
    else none

abbrev deep_options : UpdateOptions
deep_options = record default_update_options { deep = true }

abbrev top_only : PackageSet
top_only = new_package_set (codes "@selected") (codes "a/top" ∷ [])

calculate_updates-deep_example :
    calculate_updates regexes repository none deep_options 5 top_only
    ≡ some (check_all regexes repository none deep_options top_only.atoms empty_plan)
calculate_updates-deep_example =
    calculate_updates-deep regexes repository none deep_options 5 top_only

abbrev new_count : Option UpdatePlan → ℕ
new_count none = 0
new_count (some plan) = plan.new_packages

-- The deep update of the set lists the package of the set and not the one it needs.
only_the_set : new_count (calculate_updates regexes repository none deep_options 5 top_only) ≡ 1
unfolding calculate_updates new_package_set new_package new_simple_constraint
only_the_set = refl

abbrev world_of : OpenedFile → SetManager
world_of file = record { world_file = file; system_packages = ok [] }

-- A world file that cannot be read is written over.
written_over :
    (add_to_world (world_of (unreadable (codes "permission denied"))) (codes "a/b")).world_file
    ≡ content (codes "a/b\n")
unfolding add_to_world
written_over = refl

kept :
    (add_to_world (world_of (content (codes "# set\nz/z\n a/a \n"))) (codes "m/m")).world_file
    ≡ content (codes "a/a\nm/m\nz/z\n")
unfolding add_to_world
kept = refl
