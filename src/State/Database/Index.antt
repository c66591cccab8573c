-- ===== src/State/Database/Index.antt =====
-- The file index of internal/state/database.go over sequences of additions and removals.
use mathlib.Core.Path.{subst}
use grpm.Base.{
  ◌≡◌, inl, inr, refl, arith, Bool, true, false, ◌||◌, Option, none, some, List, [], ◌∷◌,
  if◌then◌else◌, Option-cases, Text, text_eq, text_eq_iff,
}
use grpm.Base.Assoc.{lookup, insert, remove, lookup-insert, lookup-remove}
use grpm.Base.Result.{ok, ok-injective}
use grpm.State.Installed.{InstalledFile, InstalledPackage}
use grpm.State.Database.{
  PackageDatabase, new_package_database, drop_files, index_files, add, remove_package, atom_of,
  files_of, get, who_owns, find_file_owners,
}

abbrev pub lists : Text → List InstalledFile → Bool
lists path [] = false
lists path (file ∷ files) = text_eq file.path path || lists path files

lookup-drop_files :
    (path : Text) (files : List InstalledFile) (index : List (Text × Text))
    → lookup path (drop_files files index) ≡ (if lists path files then none else lookup path index)
unfolding drop_files
lookup-drop_files path [] index = refl
lookup-drop_files path (file ∷ files) index = ground (
  arith,
  lookup-drop_files path files (remove file.path index),
  lookup-remove file.path path index,
)

lookup-index_files :
    (path atom : Text) (files : List InstalledFile) (index : List (Text × Text))
    → lookup path (index_files atom files index)
      ≡ (if lists path files then some atom else lookup path index)
unfolding index_files
lookup-index_files path atom [] index = refl
lookup-index_files path atom (file ∷ files) index = ground (
  arith,
  lookup-index_files path atom files (insert file.path atom index),
  lookup-insert file.path path atom index,
)

module _ {Atom : Type 0} where
  -- Additions and removals that succeed, in any order, and clearings.
  pub data Reached : PackageDatabase Atom → Type 0 where
    at_start : Reached new_package_database
    added :
        (db db' : PackageDatabase Atom) (p : Option (InstalledPackage Atom))
        → Reached db
        → add db p ≡ ok db'
        → Reached db'
    removed :
        (db db' : PackageDatabase Atom) (atom : Text)
        → Reached db
        → remove_package db atom ≡ ok db'
        → Reached db'

  -- Whether the package with this atom is installed and lists the file.
  abbrev pub owns : Text → Text → List (Text × InstalledPackage Atom) → Bool
  owns atom path packages = elim (lookup atom packages) [
    | none ↦ false
    | some i ↦ lists path i.files
  ]

  abbrev Owned : PackageDatabase Atom → Type 0
  Owned db =
      (path atom : Text) → lookup path db.file_index ≡ some atom → owns atom path db.packages ≡ true

  add-Owned :
      (db : PackageDatabase Atom) (i : InstalledPackage Atom) (atom : Text)
      → Owned db
      → Owned (record {
        packages = insert atom i db.packages;
        file_index =
            index_files atom i.files
              (drop_files (files_of (lookup atom db.packages)) db.file_index);
      })
  add-Owned db i atom h path b e = elim (Option-cases (lookup atom db.packages)) [
    | inl q ↦ ground (
      arith,
      q,
      h path b,
      text_eq_iff atom b,
      lookup-insert atom b i db.packages,
      lookup-index_files path atom i.files
          (drop_files (files_of (lookup atom db.packages)) db.file_index),
      lookup-drop_files path (files_of (lookup atom db.packages)) db.file_index,
    )
    | inr (old, q) ↦ ground (
      arith,
      q,
      h path b,
      text_eq_iff atom b,
      lookup-insert atom b i db.packages,
      lookup-index_files path atom i.files
          (drop_files (files_of (lookup atom db.packages)) db.file_index),
      lookup-drop_files path (files_of (lookup atom db.packages)) db.file_index,
    )
  ]

  remove-Owned :
      (db : PackageDatabase Atom) (i : InstalledPackage Atom) (atom : Text)
      → Owned db
      → lookup atom db.packages ≡ some i
      → Owned (record {
        packages = remove atom db.packages;
        file_index = drop_files i.files db.file_index;
      })
  remove-Owned db i atom h q path b e = ground (
    arith,
    q,
    h path b,
    text_eq_iff atom b,
    lookup-remove atom b db.packages,
    lookup-drop_files path i.files db.file_index,
  )

  Reached-Owned : (db : PackageDatabase Atom) → Reached db → Owned db
  unfolding add remove_package lookup
  Reached-Owned _ at_start = λ path atom e. cc
  Reached-Owned _ (added db db' none r e) = cc
  Reached-Owned _ (added db db' (some i) r e) = elim (Option-cases i.pkg) [
    | inl q ↦ absurd (ground (arith, e, q))
    | inr (p, q) ↦
        subst Owned (ok-injective (rw (q) at e)) (add-Owned db i (atom_of p) (Reached-Owned db r))
  ]
  Reached-Owned _ (removed db db' atom r e) = elim (Option-cases (lookup atom db.packages)) [
    | inl q ↦ absurd (ground (arith, e, q))
    | inr (i, q) ↦
        subst Owned (ok-injective (rw (remove_package, q) at e))
          (remove-Owned db i atom (Reached-Owned db r) q)
  ]

  pub who_owns-Reached :
      (db : PackageDatabase Atom) (path atom : Text)
      → Reached db
      → who_owns db path ≡ ok atom
      → (i : InstalledPackage Atom) × (get db atom ≡ ok i)
        × (lists path i.files ≡ true)
        × (find_file_owners db path ≡ i ∷ [])
  unfolding who_owns get find_file_owners
  who_owns-Reached db path atom r e = elim (Option-cases (lookup path db.file_index)) [
    | inl q ↦ absurd (ground (arith, e, q))
    | inr (b, q) ↦ elim (Option-cases (lookup b db.packages)) [
      | inl n ↦ absurd (ground (arith, n, Reached-Owned db r path b q))
      | inr (i, m) ↦ (
        i,
        ground (arith, e, q, m),
        ground (arith, m, Reached-Owned db r path b q),
        ground (arith, q, m),
      )
    ]
  ]
