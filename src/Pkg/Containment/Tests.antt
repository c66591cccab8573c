-- ===== src/Pkg/Containment/Tests.antt =====
-- Runs of internal/pkg/pathutil.go.
use grpm.Base.{ℕ, ◌≡◌, refl, Bool, true, false, [], ◌∷◌, codes, text_eq, has_prefix, split_on}
use grpm.Base.Result.{ok, err}
use grpm.Base.Paths.{clean, clean_parts, parent_of, join_parts, is_rooted}
use grpm.Pkg.Containment.{
  invalid_category_format, invalid_package_format, path_traversal, is_valid_category,
  is_valid_package_name, validate_category_package_name, validate_path_containment, join_all,
  safe_join_path,
}
use grpm.Pkg.Containment.Stays.{safe_join_path-names}

abbrev ascii_only : ℕ → Bool
ascii_only c = false

valid : validate_category_package_name ascii_only (codes "sys-libs") (codes "zlib") ≡ ok true
unfolding validate_category_package_name is_valid_category is_valid_package_name
valid = refl

dots :
    (validate_category_package_name ascii_only (codes "..") (codes "etc")
      ≡ err (invalid_category_format (codes "..")))
    × (validate_category_package_name ascii_only (codes "sys-libs") (codes "a/../b")
        ≡ err (invalid_package_format (codes "a/../b")))
unfolding validate_category_package_name is_valid_category is_valid_package_name
dots = (refl, refl)

escapes :
    safe_join_path (codes "/var/db") (codes ".." ∷ codes "dbx" ∷ [])
    ≡ err (path_traversal (codes "/var/dbx") (codes "/var/db"))
unfolding safe_join_path validate_path_containment join_all clean clean_parts parent_of join_parts
    is_rooted split_on text_eq has_prefix
escapes = refl

-- The root contains no path but itself.
below_root :
    safe_join_path (codes "/") (codes "sys-libs" ∷ codes "zlib" ∷ [])
    ≡ err (path_traversal (codes "/sys-libs/zlib") (codes "/"))
unfolding safe_join_path validate_path_containment join_all clean clean_parts parent_of join_parts
    is_rooted split_on text_eq has_prefix
below_root = refl

is_clean : clean (codes "/var/db") ≡ codes "/var/db"
unfolding clean clean_parts parent_of join_parts is_rooted split_on text_eq
is_clean = refl

no_root : text_eq (codes "/var/db") (codes "/") ≡ false
unfolding text_eq
no_root = refl

safe_join_path-names_example :
    (safe_join_path (codes "/var/db") (codes "sys-libs" ∷ codes "zlib" ∷ [])
      ≡ ok (codes "/var/db/sys-libs/zlib"))
    × (validate_path_containment (codes "/var/db") (codes "/var/db/sys-libs/zlib") ≡ ok true)
safe_join_path-names_example =
    safe_join_path-names ascii_only (codes "var/db") (codes "sys-libs") (codes "zlib") is_clean
      no_root valid
