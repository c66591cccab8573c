-- ===== src/State/Database/Tests.antt =====
-- Runs of internal/state/database.go on two packages with a file in common.
use Prim.Native.String.{String}
use grpm.Base.{◌≡◌, refl, true, some, List, [], ◌∷◌, Text, codes}
use grpm.Base.Result.{Result, ok, err}
use grpm.Pkg.Package.{new_package}
use grpm.State.Installed.{InstalledFile, InstalledPackage, regular}
use grpm.State.Database.{
  PackageDatabase, DatabaseError, file_not_owned, new_package_database, add, remove_package, get,
  who_owns,
}
use grpm.State.Database.Index.{lists}

abbrev file : String → InstalledFile
file path = record { path = codes path; kind = regular; size = 1; hash = []; target = [] }

abbrev with_files : String → List InstalledFile → InstalledPackage Text
with_files name files = record {
  pkg = some (new_package (codes name) (codes "1") (codes "0"));
  files = files;
  built_use = [];
  size = 1;
}

abbrev one : InstalledPackage Text
one = with_files "a/one" (file "/bin/x" ∷ file "/bin/one" ∷ [])

abbrev two : InstalledPackage Text
two = with_files "a/two" (file "/bin/x" ∷ [])

abbrev after : Result DatabaseError (PackageDatabase Text) → PackageDatabase Text
after (ok db) = db
after (err e) = new_package_database

abbrev with_one : PackageDatabase Text
with_one = after (add new_package_database (some one))

abbrev with_both : PackageDatabase Text
with_both = after (add with_one (some two))

abbrev with_one_again : PackageDatabase Text
with_one_again = after (remove_package with_both (codes "a/two-1"))

-- The removal of the second package forgets the owner of a file that the first one still lists.
lost_owner :
    (who_owns with_one_again (codes "/bin/x") ≡ err (file_not_owned (codes "/bin/x")))
    × (get with_one_again (codes "a/one-1") ≡ ok one)
    × (lists (codes "/bin/x") one.files ≡ true)
unfolding add remove_package new_package who_owns get
lost_owner = (refl, refl, refl)
