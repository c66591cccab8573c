-- ===== src/Pkg/Containment.antt =====
-- internal/pkg/pathutil.go, with the names of categories and packages of internal/pkg/atom.go. Which
-- characters beyond ASCII are letters or digits is an argument; the source judges the first
-- character by its first byte, the model by its code.
mod Below
pub mod Stays
mod Tests
use grpm.Base.{
  ℕ, Bool, true, false, not, ◌&&◌, ◌||◌, List, [], ◌∷◌, ◌++◌, ◌==◌, all, leb, is_digit,
  if◌then◌else◌, Text, codes, text_eq, has_prefix,
}
use grpm.Base.Result.{Result, ok, err}
use grpm.Base.Paths.{clean, no_text, join_parts}

pub data PathError : Type 0 where
  invalid_category_format invalid_package_format : Text → PathError
  path_traversal : Text → Text → PathError

abbrev is_alpha_num : (ℕ → Bool) → ℕ → Bool
is_alpha_num beyond_ascii c =
    is_digit c
    || ((leb b'a' c && leb c b'z') || ((leb b'A' c && leb c b'Z') || (leb 128 c && beyond_ascii c)))

abbrev package_char : (ℕ → Bool) → ℕ → Bool
package_char beyond_ascii c =
    is_alpha_num beyond_ascii c || ((c == b'+') || ((c == b'_') || (c == b'-')))

abbrev category_char : (ℕ → Bool) → ℕ → Bool
category_char beyond_ascii c = package_char beyond_ascii c || (c == b'.')

unfoldable pub is_valid_category : (ℕ → Bool) → Text → Bool
is_valid_category beyond_ascii [] = false
is_valid_category beyond_ascii (c ∷ s) =
    is_alpha_num beyond_ascii c && all (category_char beyond_ascii) s

unfoldable pub is_valid_package_name : (ℕ → Bool) → Text → Bool
is_valid_package_name beyond_ascii [] = false
is_valid_package_name beyond_ascii (c ∷ s) =
    is_alpha_num beyond_ascii c && all (package_char beyond_ascii) s

unfoldable pub validate_category_package_name : (ℕ → Bool) → Text → Text → Result PathError Bool
unfolding is_valid_category is_valid_package_name
validate_category_package_name beyond_ascii category pkg_name =
    if not (is_valid_category beyond_ascii category)
    then err (invalid_category_format category)
    else if not (is_valid_package_name beyond_ascii pkg_name)
    then err (invalid_package_format pkg_name)
    else ok true

unfoldable pub validate_path_containment : Text → Text → Result PathError Bool
unfolding clean has_prefix text_eq
validate_path_containment base_path resolved_path =
    if not (has_prefix (clean resolved_path) (clean base_path ++ codes "/"))
      && not (text_eq (clean resolved_path) (clean base_path))
    then err (path_traversal resolved_path base_path)
    else ok true

-- `filepath.Join` of any number of elements.
unfoldable pub join_all : List Text → Text
unfolding clean join_parts
join_all [] = []
join_all (e ∷ elems) =
    let later = join_all elems in if no_text e then later else clean (join_parts (e ∷ elems))

unfoldable pub safe_join_path : Text → List Text → Result PathError Text
unfolding join_all validate_path_containment
safe_join_path base_path elems =
    elim (validate_path_containment base_path (join_all (base_path ∷ elems))) [
      | err e ↦ err e
      | ok valid ↦ ok (join_all (base_path ∷ elems))
    ]
