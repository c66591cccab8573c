-- ===== src/Solver/Depclean/Tests.antt =====
-- Runs of internal/solver/depclean.go on small databases.
use Prim.Native.String.{String}
use grpm.Base.{◌≡◌, ◌↔◌, refl, true, false, some, List, [], ◌∷◌, map, is_some, Text, codes}
use grpm.Base.Assoc.{contains, keys}
use grpm.Base.Result.{Result, ok, err}
use grpm.Pkg.Constraint.{new_simple_constraint}
use grpm.Pkg.Package.{new_package}
use grpm.State.Sets.{PackageSet, SetManager, content}
use grpm.Solver.BaseAtom.{extract_base_atom}
use grpm.State.Installed.{InstalledPackage}
use grpm.State.Database.{PackageDatabase, list_packages}
use grpm.Solver.Depclean.{new_graph, build_graph, get_package}
use grpm.Solver.Depclean.Search.{DepcleanError, mark_needed_packages}
use grpm.Solver.Depclean.Correct.{Needed, mark_needed_packages-Needed}
use grpm.Solver.Depclean.Orphans.{
  DepcleanCalculator, DepcleanResult, OrphanInfo, not_required, unused, load_world_set, calculate,
}
use grpm.Solver.Depclean.Safe.{orphan_atoms, calculate-Needed}

abbrev installed : String → String → List String → InstalledPackage Text
installed name version deps = record {
  pkg = some (record (new_package (codes name) (codes version) (codes "0")) {
    deps = map (λ d. new_simple_constraint (codes d)) deps;
  });
  files = [];
  built_use = [];
  size = 100;
}

abbrev database_of : List (InstalledPackage Text) → PackageDatabase Text
database_of ps = record { packages = map (λ i. ([], i)) ps; file_index = [] }

-- The keys of the map are not read.
abbrev database : PackageDatabase Text
database = database_of (
    installed "app-misc/hello" "1.0" (">=sys-libs/glibc-2.38" ∷ [])
    ∷ installed "sys-libs/glibc" "2.38" []
    ∷ installed "dev-libs/old" "0.9" ("sys-libs/glibc" ∷ [])
    ∷ [])

abbrev manager : String → SetManager
manager world = record { world_file = content (codes world); system_packages = ok [] }

abbrev calculator : DepcleanCalculator Text
calculator = record {
  db = some database;
  set_manager = some (manager "# selected\n app-misc/hello\n");
  opts = record { exclude = []; include_system = false };
}

abbrev world : PackageSet
world = record {
  name = codes "@selected";
  atoms = codes "app-misc/hello" ∷ [];
  atom_set = codes "app-misc/hello" ∷ [];
}

base_atoms :
    (extract_base_atom (codes ">=sys-libs/zlib-1.2.13:0/1[static]") ≡ codes "sys-libs/zlib")
    × (extract_base_atom (codes "dev-lang/go") ≡ codes "dev-lang/go")
unfolding extract_base_atom
base_atoms = (refl, refl)

-- Two packages whose names end in a hyphen and a digit have the same base.
same_base :
    (extract_base_atom (codes "media-fonts/font-adobe-100dpi") ≡ codes "media-fonts/font-adobe")
    × (extract_base_atom (codes "media-fonts/font-adobe-75dpi") ≡ codes "media-fonts/font-adobe")
unfolding extract_base_atom
same_base = (refl, refl)

world_is_loaded : load_world_set calculator ≡ ok world
unfolding load_world_set
world_is_loaded = refl

mark_needed_packages-Needed_example :
    let g = build_graph (list_packages database) new_graph in
    (t : List Text) × (mark_needed_packages g [] world.atoms ≡ ok t)
    × ((a : Text) → (contains a t ≡ true) ↔ Needed g [] world.atoms a)
mark_needed_packages-Needed_example =
    mark_needed_packages-Needed (build_graph (list_packages database) new_graph) [] world.atoms

calculate-Needed_example :
    let g = build_graph (list_packages database) new_graph in
    (r : DepcleanResult Text) × (calculate calculator ≡ ok r)
    × ((a : Text)
        → (contains a r.protected ≡ true)
          ↔ ((contains a (keys g.packages) ≡ true) × Needed g [] world.atoms a))
    × ((a : Text)
        → (contains a (orphan_atoms r.orphans) ≡ true) ↔ (
            (contains a (keys g.packages) ≡ true)
            × ¬ Needed g [] world.atoms a
            × (is_some (get_package g a) ≡ true)))
calculate-Needed_example = calculate-Needed calculator database world refl world_is_loaded

abbrev orphans_of : Result DepcleanError (DepcleanResult Text) → List OrphanInfo
orphans_of (ok r) = r.orphans
orphans_of (err e) = []

abbrev orphan : String → String → OrphanInfo
orphan name version = record {
  atom = codes name;
  version = codes version;
  slot = codes "0";
  size = 100;
  reason = not_required;
}

one_orphan : orphans_of (calculate calculator) ≡ orphan "dev-libs/old" "0.9" ∷ []
unfolding calculate new_package new_simple_constraint
one_orphan = refl

-- A second slot of a package takes the place of the first one, and what only the first one needs
-- is an orphan.
abbrev two_slots : PackageDatabase Text
two_slots = database_of (
    installed "dev-lang/python" "3.11" ("dev-libs/mpdecimal" ∷ [])
    ∷ installed "dev-lang/python" "3.12" []
    ∷ installed "dev-libs/mpdecimal" "2.5" []
    ∷ [])

second_slot :
    orphans_of (
      calculate (record calculator {
        db = some two_slots;
        set_manager = some (manager "dev-lang/python\n");
      }))
    ≡ record (orphan "dev-libs/mpdecimal" "2.5") { reason = unused } ∷ []
unfolding calculate new_package new_simple_constraint
second_slot = refl
