-- ===== src/Install/Collision.antt =====
-- internal/install/collision.go: the files of a package that are in the way. The paths that `os.Stat`
-- finds are an argument.
mod Names
pub mod Safe
mod Tests
use grpm.Base.{
  ℕ, Bool, true, false, not, ◌&&◌, Option, none, some, List, [], ◌∷◌, ◌++◌, ◌==◌, if◌then◌else◌,
  Text, codes, text_eq,
}
use grpm.Base.Assoc.{contains}
use grpm.Base.Result.{Result, ok, err}
use grpm.Config.Atom.{cut}
use grpm.Solver.BaseAtom.{starts_with_digit}
use grpm.State.Database.{PackageDatabase, DatabaseError, who_owns}

pub data CollisionType : Type 0 where
  collision_file_exists collision_owned_by_other collision_protected : CollisionType

pub record Collision : Type 0 where
  pub path : Text
  pub existing_owner : Text
  pub new_owner : Text
  pub kind : CollisionType

abbrev pub print_collision_type : CollisionType → Text
print_collision_type collision_file_exists = codes "file exists"
print_collision_type collision_owned_by_other = codes "owned by other package"
print_collision_type collision_protected = codes "protected path"

abbrev pub print_kind : CollisionType → Collision → Text
print_kind collision_file_exists c =
    codes "file exists: " ++ (c.path ++ codes " (not tracked by any package)")
print_kind collision_owned_by_other c =
    codes "file conflict: "
    ++ (c.path
        ++ (codes " (owned by "
            ++ (c.existing_owner ++ (codes ", wanted by " ++ (c.new_owner ++ codes ")")))))
print_kind collision_protected c =
    codes "protected file: " ++ (c.path ++ codes " (cannot be overwritten)")

abbrev pub print_collision : Collision → Text
print_collision c = print_kind c.kind c

-- What stands before the first hyphen with a digit behind it.
unfoldable pub up_to_version : Text → Option Text
up_to_version [] = none
up_to_version (c ∷ s) =
    let rest : Option Text = elim (up_to_version s) [ none ↦ none | some name ↦ some (c ∷ name) ] in
    if (c == b'-') && starts_with_digit s then some [] else rest

-- `extractPackageName`.
unfoldable pub package_of_atom : Text → Text
unfolding cut up_to_version
package_of_atom atom = elim (cut (codes "/") atom) [
  | none ↦ atom
  | some (category, rest) ↦ elim (up_to_version rest) [
    | none ↦ atom
    | some name ↦ category ++ (codes "/" ++ name)
  ]
]

-- `isSamePackage`.
unfoldable pub same_package : Text → Text → Bool
unfolding package_of_atom text_eq
same_package atom1 atom2 = text_eq (package_of_atom atom1) (package_of_atom atom2)

pub record CollisionDetector (Atom : Type 0) : Type 0 where
  pub db : PackageDatabase Atom
  pub protected_paths : List Text
  pub shared_paths : List Text

unfoldable pub owner_collision : Text → Text → Result DatabaseError Text → Option Collision
unfolding same_package
owner_collision path package_name (err e) = some (record {
  path = path;
  existing_owner = [];
  new_owner = package_name;
  kind = collision_file_exists;
})
owner_collision path package_name (ok owner) =
    if not (same_package owner package_name)
    then some (record {
      path = path;
      existing_owner = owner;
      new_owner = package_name;
      kind = collision_owned_by_other;
    })
    else none

module _ {Atom : Type 0} where
  unfoldable pub new_collision_detector : PackageDatabase Atom → CollisionDetector Atom
  new_collision_detector db = record {
    db = db;
    protected_paths =
        codes "/etc/passwd"
        ∷ codes "/etc/shadow"
        ∷ codes "/etc/group"
        ∷ codes "/etc/gshadow"
        ∷ codes "/etc/fstab"
        ∷ codes "/etc/mtab"
        ∷ codes "/boot/vmlinuz"
        ∷ codes "/boot/initramfs"
        ∷ [];
    shared_paths = codes "/usr/share/info/dir" ∷ [];
  }

  abbrev pub is_shared : CollisionDetector Atom → Text → Bool
  is_shared cd path = contains path cd.shared_paths

  abbrev pub is_protected_path : CollisionDetector Atom → Text → Bool
  is_protected_path cd path = contains path cd.protected_paths

  -- One turn of the loop of `Detect`.
  unfoldable pub collision_at : CollisionDetector Atom → List Text → Text → Text → Option Collision
  unfolding owner_collision who_owns contains
  collision_at cd existing package_name path =
      if is_protected_path cd path
      then some (record {
        path = path;
        existing_owner = [];
        new_owner = package_name;
        kind = collision_protected;
      })
      else if is_shared cd path
      then none
      else if contains path existing
      then owner_collision path package_name (who_owns cd.db path)
      else none

  unfoldable pub detect : CollisionDetector Atom → List Text → List Text → Text → List Collision
  unfolding collision_at
  detect cd existing [] package_name = []
  detect cd existing (path ∷ files) package_name =
      let rest = detect cd existing files package_name in
      elim (collision_at cd existing package_name path) [ none ↦ rest | some c ↦ c ∷ rest ]

  unfoldable pub add_protected_path : CollisionDetector Atom → Text → CollisionDetector Atom
  add_protected_path cd path = record cd { protected_paths = cd.protected_paths ++ path ∷ [] }
