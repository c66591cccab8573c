-- ===== src/State/Sets/Updates.antt =====
-- What `CalculateUpdates` of internal/state/sets.go finds out about one atom. The repository is the
-- function `LoadPackage`. A package without metadata, which the database refuses to add, is passed
-- over.
pub mod Calculate
pub mod Deep
mod Tests
use grpm.Base.{
  ℕ, zero, suc, ◌+◌, Bool, true, false, not, ◌&&◌, ◌||◌, Option, none, some, List, [], ◌∷◌, ◌++◌,
  map, if◌then◌else◌, ltb, Text, codes, text_eq, has_prefix, has_suffix, split_on,
}
use grpm.Base.Int.{ℤ, pos, ltb_ℤ}
use grpm.Base.Assoc.{contains}
use grpm.Base.Sort.{sort, sort_by}
use grpm.Base.Result.{Result, ok, err}
use grpm.Pkg.Version.{is_empty}
use grpm.Pkg.VersionConstraint.{Regexes, compare_version_texts}
use grpm.Pkg.Use.{Flags}
use grpm.Pkg.Constraint.{Constraint}
use grpm.Pkg.Package.{Package}
use grpm.Solver.BaseAtom.{before_version}
use grpm.State.Installed.{InstalledPackage}
use grpm.State.Database.{PackageDatabase, list_packages}
use grpm.State.Sets.{PackageSet}

pub record UpdateInfo : Type 0 where
  pub atom : Text
  pub installed_version : Text
  pub available_version : Text
  pub slot : Text
  pub is_new : Bool
  pub is_upgrade : Bool
  pub is_downgrade : Bool
  pub use_changed : Bool
  pub old_use_flags : List Text
  pub new_use_flags : List Text

-- `String`.
unfoldable pub print_update : UpdateInfo → Text
unfolding text_eq
print_update u =
    let prefix =
      if u.is_new
      then codes "N"
      else if u.is_upgrade
      then codes "U"
      else if u.is_downgrade
      then codes "UD"
      else if u.use_changed
      then codes "U"
      else codes "R" in
    let version_info =
      if not (is_empty u.installed_version) && not (text_eq u.installed_version u.available_version)
      then u.available_version ++ (codes " [" ++ (u.installed_version ++ codes "]"))
      else u.available_version in
    codes "[ebuild     " ++ (prefix ++ (codes " ] " ++ (u.atom ++ (codes "-" ++ version_info))))

pub record UpdatePlan : Type 0 where
  pub updates : List UpdateInfo
  pub new_packages : ℕ
  pub upgrades : ℕ
  pub downgrades : ℕ
  pub reinstalls : ℕ

abbrev pub empty_plan : UpdatePlan
empty_plan = record { updates = []; new_packages = 0; upgrades = 0; downgrades = 0; reinstalls = 0 }

pub record UpdateOptions : Type 0 where
  pub deep : Bool
  pub new_use : Bool
  pub changed_use : Bool
  pub update : Bool

abbrev pub default_update_options : UpdateOptions
default_update_options = record {
  deep = false;
  new_use = false;
  changed_use = false;
  update = true;
}

unfoldable pub extract_atom : Text → Text
unfolding before_version
extract_atom full_name = elim (before_version full_name) [ none ↦ full_name | some name ↦ name ]

unfoldable pub last_element : List Text → Text → Text
last_element [] last = last
last_element (part ∷ parts) last = last_element parts (if is_empty part then last else part)

-- `filepath.Base`.
unfoldable pub path_base : Text → Text
unfolding last_element split_on
path_base path = if is_empty path then codes "." else last_element (split_on b'/' path) (codes "/")

unfoldable pub matches_atom : Text → Text → Bool
unfolding text_eq has_prefix has_suffix path_base
matches_atom pkg_atom atom =
    text_eq pkg_atom atom
    || has_prefix pkg_atom atom
    || has_suffix atom (codes "/" ++ path_base pkg_atom)

unfoldable pub flags_to_texts : Flags → List Text
flags_to_texts [] = []
flags_to_texts ((flag, enabled) ∷ m) =
    (if enabled then flag else codes "-" ++ flag) ∷ flags_to_texts m

unfoldable pub slices_equal : List Text → List Text → Bool
unfolding text_eq
slices_equal [] [] = true
slices_equal [] (b ∷ bs) = false
slices_equal (a ∷ l) [] = false
slices_equal (a ∷ l) (b ∷ bs) = text_eq a b && slices_equal l bs

-- The switch that counts an update.
unfoldable pub add_update : UpdateInfo → UpdatePlan → UpdatePlan
add_update info plan =
    let longer = record plan { updates = plan.updates ++ info ∷ [] } in
    if info.is_new
    then record longer { new_packages = suc plan.new_packages }
    else if info.is_upgrade
    then record longer { upgrades = suc plan.upgrades }
    else if info.is_downgrade
    then record longer { downgrades = suc plan.downgrades }
    else if info.use_changed
    then record longer { reinstalls = suc plan.reinstalls }
    else longer

abbrev pub add_found : Option UpdateInfo → UpdatePlan → UpdatePlan
add_found none plan = plan
add_found (some info) plan = add_update info plan

module _ {Atom : Type 0} where
  unfoldable pub get_use_flags : Package Atom → List Text
  unfolding flags_to_texts sort_by
  get_use_flags p = sort (flags_to_texts p.use_flags)

  abbrev pub matching : Text → Option (Package Atom) → Bool
  matching atom none = false
  matching atom (some p) = matches_atom (extract_atom p.name) atom

  -- The loop of `findInstalledPackage`.
  unfoldable pub find_installed :
      Text → List (InstalledPackage Atom) → Option (InstalledPackage Atom)
  unfolding matches_atom extract_atom
  find_installed atom [] = none
  find_installed atom (i ∷ l) =
      let later = find_installed atom l in if matching atom i.pkg then some i else later

  abbrev pub version_of : Option (Package Atom) → Text
  version_of none = []
  version_of (some p) = p.version

module _ {Atom : Type 0} (r : Regexes) (load_package : Text → Option (Package Atom))
    (db : Option (PackageDatabase Atom)) (opts : UpdateOptions) where
  -- What an installed package says about the available one.
  unfoldable pub compare_installed :
      Text → Package Atom → InstalledPackage Atom → UpdateInfo → Option UpdateInfo
  unfolding compare_version_texts get_use_flags slices_equal
  compare_installed atom available installed info =
      let installed_version = version_of installed.pkg in
      let cmp = compare_version_texts r available.version installed_version in
      let is_upgrade = ltb_ℤ (pos 0) cmp in
      let is_downgrade = if is_upgrade then false else ltb_ℤ cmp (pos 0) in
      let asked = opts.new_use || opts.changed_use in
      let new_use_flags = get_use_flags available in
      let use_changed = asked && not (slices_equal installed.built_use new_use_flags) in
      if opts.update && (not is_upgrade && not use_changed)
      then none
      else if opts.changed_use && not use_changed
      then none
      else some (record info {
        installed_version = installed_version;
        is_upgrade = is_upgrade;
        is_downgrade = is_downgrade;
        use_changed = use_changed;
        old_use_flags = if asked then installed.built_use else [];
        new_use_flags = if asked then new_use_flags else [];
      })

  -- A package that the repository does not have is `none`.
  unfoldable pub check_package_update : Text → Option (Option UpdateInfo)
  unfolding list_packages find_installed compare_installed
  check_package_update atom = elim (load_package atom) [
    | none ↦ none
    | some available ↦
        let info : UpdateInfo = record {
          atom = atom;
          installed_version = [];
          available_version = available.version;
          slot = available.slot.name;
          is_new = false;
          is_upgrade = false;
          is_downgrade = false;
          use_changed = false;
          old_use_flags = [];
          new_use_flags = [];
        } in
        elim db [
          | none ↦ some (some (record info { is_new = true }))
          | some db ↦ elim (find_installed atom (list_packages db)) [
            | none ↦ some (some (record info { is_new = true }))
            | some installed ↦ some (compare_installed atom available installed info)
          ]
        ]
  ]
