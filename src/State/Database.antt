-- ===== src/State/Database.antt =====
-- `PackageDatabase` of internal/state/database.go, in memory. Each method runs under the lock, and is
-- one step. A map is iterated in the order of its list.
pub mod Index
mod Tests
use grpm.Base.{
  ℕ, ◌+◌, ◌%◌, ◌^◌, Bool, true, false, Option, none, some, List, [], ◌∷◌, ◌++◌, length,
  if◌then◌else◌, Text, codes, text_eq,
}
use grpm.Base.Assoc.{lookup, insert, remove}
use grpm.Base.Result.{Result, ok, err}
use grpm.Pkg.Package.{Package}
use grpm.State.Installed.{InstalledFile, InstalledPackage}

pub record PackageDatabase (Atom : Type 0) : Type 0 where
  pub packages : List (Text × InstalledPackage Atom)
  pub file_index : List (Text × Text)

pub data DatabaseError : Type 0 where
  nil_package nil_metadata : DatabaseError
  package_not_found file_not_owned : Text → DatabaseError

-- The loop that deletes the files of a package from the index.
unfoldable pub drop_files : List InstalledFile → List (Text × Text) → List (Text × Text)
unfolding remove
drop_files [] index = index
drop_files (file ∷ files) index = drop_files files (remove file.path index)

-- The loop that enters the files of a package.
unfoldable pub index_files : Text → List InstalledFile → List (Text × Text) → List (Text × Text)
unfolding insert
index_files atom [] index = index
index_files atom (file ∷ files) index = index_files atom files (insert file.path atom index)

pub record DatabaseStats : Type 0 where
  pub package_count : ℕ
  pub file_count : ℕ
  pub total_size : ℕ

module _ {Atom : Type 0} where
  abbrev pub new_package_database : PackageDatabase Atom
  new_package_database = record { packages = []; file_index = [] }

  abbrev pub atom_of : Package Atom → Text
  atom_of p = p.name ++ (codes "-" ++ p.version)

  abbrev pub files_of : Option (InstalledPackage Atom) → List InstalledFile
  files_of none = []
  files_of (some old) = old.files

  unfoldable pub add :
      PackageDatabase Atom
      → Option (InstalledPackage Atom)
      → Result DatabaseError (PackageDatabase Atom)
  unfolding lookup insert drop_files index_files
  add db none = err nil_package
  add db (some installed) = elim installed.pkg [
    | none ↦ err nil_metadata
    | some p ↦
        let atom = atom_of p in
        ok (record {
          packages = insert atom installed db.packages;
          file_index =
              index_files atom installed.files
                (drop_files (files_of (lookup atom db.packages)) db.file_index);
        })
  ]

  unfoldable pub remove_package :
      PackageDatabase Atom → Text → Result DatabaseError (PackageDatabase Atom)
  unfolding lookup remove drop_files
  remove_package db atom = elim (lookup atom db.packages) [
    | none ↦ err (package_not_found atom)
    | some installed ↦ ok (record {
      packages = remove atom db.packages;
      file_index = drop_files installed.files db.file_index;
    })
  ]

  unfoldable pub get : PackageDatabase Atom → Text → Result DatabaseError (InstalledPackage Atom)
  unfolding lookup
  get db atom = elim (lookup atom db.packages) [
    | none ↦ err (package_not_found atom)
    | some installed ↦ ok installed
  ]

  abbrev pub values : List (Text × InstalledPackage Atom) → List (InstalledPackage Atom)
  values [] = []
  values ((k, i) ∷ m) = i ∷ values m

  -- `List`.
  unfoldable pub list_packages : PackageDatabase Atom → List (InstalledPackage Atom)
  list_packages db = values db.packages

  unfoldable pub find_file_owners : PackageDatabase Atom → Text → List (InstalledPackage Atom)
  unfolding lookup
  find_file_owners db path = elim (lookup path db.file_index) [
    | none ↦ []
    | some atom ↦ elim (lookup atom db.packages) [ none ↦ [] | some installed ↦ installed ∷ [] ]
  ]

  unfoldable pub who_owns : PackageDatabase Atom → Text → Result DatabaseError Text
  unfolding lookup
  who_owns db path = elim (lookup path db.file_index) [
    | none ↦ err (file_not_owned path)
    | some atom ↦ ok atom
  ]

  abbrev pub has_name : Text → Option (Package Atom) → Bool
  has_name name none = false
  has_name name (some p) = text_eq p.name name

  -- The loop of `GetInstalledVersion`.
  unfoldable pub first_named : Text → List (InstalledPackage Atom) → Option (InstalledPackage Atom)
  unfolding text_eq
  first_named name [] = none
  first_named name (i ∷ l) =
      let later = first_named name l in if has_name name i.pkg then some i else later

  unfoldable pub get_installed_version :
      PackageDatabase Atom → Text → Option (InstalledPackage Atom)
  unfolding first_named
  get_installed_version db name = first_named name (values db.packages)

  -- The loop of `IsInstalled`.
  unfoldable pub some_named : Text → List (InstalledPackage Atom) → Bool
  unfolding text_eq
  some_named name [] = false
  some_named name (i ∷ l) =
      let later = some_named name l in if has_name name i.pkg then true else later

  unfoldable pub is_installed : PackageDatabase Atom → Text → Bool
  unfolding some_named
  is_installed db name = some_named name (values db.packages)

  unfoldable pub has : PackageDatabase Atom → Text → Bool
  unfolding lookup
  has db atom = elim (lookup atom db.packages) [ none ↦ false | some installed ↦ true ]

  unfoldable pub clear : PackageDatabase Atom → PackageDatabase Atom
  clear db = new_package_database

  -- The sizes are `int64`.
  unfoldable pub sum_sizes : List (InstalledPackage Atom) → ℕ → ℕ
  sum_sizes [] total = total
  sum_sizes (i ∷ l) total = sum_sizes l ((total + i.size) % 2 ^ 64)

  unfoldable pub stats : PackageDatabase Atom → DatabaseStats
  unfolding sum_sizes
  stats db = record {
    package_count = length db.packages;
    file_count = length db.file_index;
    total_size = sum_sizes (values db.packages) 0;
  }
