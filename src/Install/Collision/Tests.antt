-- ===== src/Install/Collision/Tests.antt =====
-- Runs of internal/install/collision.go on a database with two packages.
use Prim.Native.String.{String}
use grpm.Base.{◌≡◌, refl, true, false, some, List, [], ◌∷◌, Text, codes, text_eq}
use grpm.Base.Assoc.{contains}
use grpm.Base.Result.{Result, ok, err}
use grpm.Pkg.Package.{new_package}
use grpm.State.Installed.{InstalledPackage, regular}
use grpm.State.Database.{PackageDatabase, DatabaseError, new_package_database, add, get}
use grpm.State.Database.Index.{lists, Reached, at_start, added}
use grpm.Install.Collision.{
  Collision, CollisionDetector, print_collision, package_of_atom, same_package,
  new_collision_detector, detect,
}
use grpm.Install.Collision.Names.{NameOf}
use grpm.Install.Collision.Safe.{detect-Owned}

abbrev with_file : String → String → InstalledPackage Text
with_file name path = record {
  pkg = some (new_package (codes name) (codes "1") (codes "0"));
  files = record { path = codes path; kind = regular; size = 1; hash = []; target = [] } ∷ [];
  built_use = [];
  size = 1;
}

abbrev after : Result DatabaseError (PackageDatabase Text) → PackageDatabase Text
after (ok db) = db
after (err e) = new_package_database

abbrev with_one : PackageDatabase Text
with_one = after (add new_package_database (some (with_file "a/one" "/bin/one")))

abbrev with_two : PackageDatabase Text
with_two = after (add with_one (some (with_file "a/two" "/bin/two")))

two_Reached : Reached with_two
unfolding add new_package
two_Reached =
    added with_one with_two (some (with_file "a/two" "/bin/two"))
      (added new_package_database with_one (some (with_file "a/one" "/bin/one")) at_start refl) refl

abbrev detector : CollisionDetector Text
detector = new_collision_detector with_two

abbrev existing : List Text
existing =
    codes "/bin/one" ∷ codes "/bin/two" ∷ codes "/bin/three" ∷ codes "/usr/share/info/dir" ∷ []

abbrev reports : List Collision → List Text
reports [] = []
reports (c ∷ collisions) = print_collision c ∷ reports collisions

all_collisions :
    reports (
      detect detector existing
        (codes "/etc/passwd" ∷ codes "/bin/new" ∷ codes "/usr/share/info/dir" ∷ existing)
        (codes "a/one-2"))
    ≡ codes "protected file: /etc/passwd (cannot be overwritten)"
      ∷ codes "file conflict: /bin/two (owned by a/two-1, wanted by a/one-2)"
      ∷ codes "file exists: /bin/three (not tracked by any package)"
      ∷ []
unfolding detect add new_package new_collision_detector
all_collisions = refl

no_collisions :
    detect detector existing (codes "/bin/new" ∷ codes "/bin/one" ∷ []) (codes "a/one-2") ≡ []
unfolding detect add new_package new_collision_detector
no_collisions = refl

revision : package_of_atom (codes "sys-libs/zlib-1.2.13-r1") ≡ codes "sys-libs/zlib"
unfolding package_of_atom
revision = refl

-- Two packages whose names differ behind the first hyphen with a digit behind it.
same_fonts :
    same_package
      (codes "media-fonts/font-adobe-100dpi-1.0.4")
      (codes "media-fonts/font-adobe-75dpi-1.0.4")
    ≡ true
unfolding same_package
same_fonts = refl

listed : contains (codes "/bin/one") (codes "/bin/new" ∷ codes "/bin/one" ∷ []) ≡ true
unfolding contains text_eq
listed = refl

exists : contains (codes "/bin/one") existing ≡ true
unfolding contains text_eq
exists = refl

unshared : contains (codes "/bin/one") detector.shared_paths ≡ false
unfolding contains new_collision_detector text_eq
unshared = refl

detect-Owned_example :
    (contains (codes "/bin/one") detector.protected_paths ≡ false)
    × ((owner : Text) × (i : InstalledPackage Text) × (get with_two owner ≡ ok i)
        × (lists (codes "/bin/one") i.files ≡ true)
        × ((name : Text) × NameOf owner name × NameOf (codes "a/one-2") name))
unfolding new_collision_detector
detect-Owned_example =
    detect-Owned detector existing (codes "a/one-2") (codes "/bin/new" ∷ codes "/bin/one" ∷ [])
      (codes "/bin/one") two_Reached no_collisions listed exists unshared
