-- ===== src/Install/Protect.antt =====
-- internal/install/protect.go: the protection of configuration files. The file system is the paths of
-- its files, and the paths that cannot be created for another reason.
pub mod Fresh
mod Tests
use Prim.Native.Nat.{◌/◌}
use grpm.Base.{
  ℕ, zero, suc, ◌+◌, ◌-◌, ◌%◌, Bool, true, false, not, ◌&&◌, ◌||◌, Option, none, some, List, [],
  ◌∷◌, ◌++◌, length, take, drop, map, all, is_digit, ltb, ◌==◌, if◌then◌else◌, Text, codes, text_eq,
  has_prefix, has_suffix,
}
use grpm.Base.Assoc.{contains}
use grpm.Base.Sort.{sort, sort_by}
use grpm.Base.Paths.{clean, dir, base, join}

pub record ConfigProtect : Type 0 where
  pub protected : List Text
  pub masked : List Text

abbrev pub new_config_protect : ConfigProtect
new_config_protect = record {
  protected = codes "/etc" ∷ codes "/usr/share/config" ∷ [];
  masked = codes "/etc/env.d" ∷ codes "/etc/gconf" ∷ [];
}

-- The loop of `IsProtected` and of `IsMasked`.
unfoldable pub is_below : Text → List Text → Bool
unfolding clean text_eq has_prefix
is_below clean_path [] = false
is_below clean_path (p ∷ ps) =
    let later = is_below clean_path ps in
    if text_eq clean_path (clean p)
    then true
    else if has_prefix clean_path (clean p ++ codes "/")
    then true
    else later

unfoldable pub is_protected : ConfigProtect → Text → Bool
unfolding clean is_below
is_protected cp path = is_below (clean path) cp.protected

unfoldable pub is_path_masked : ConfigProtect → Text → Bool
unfolding clean is_below
is_path_masked cp path = is_below (clean path) cp.masked

unfoldable pub should_protect : ConfigProtect → Text → Bool
unfolding is_protected is_path_masked
should_protect cp path = is_protected cp path && not (is_path_masked cp path)

unfoldable pub add_protected : ConfigProtect → Text → ConfigProtect
unfolding clean
add_protected cp path = record cp { protected = cp.protected ++ clean path ∷ [] }

unfoldable pub add_masked : ConfigProtect → Text → ConfigProtect
unfolding clean
add_masked cp path = record cp { masked = cp.masked ++ clean path ∷ [] }

unfoldable pub set_protected : ConfigProtect → List Text → ConfigProtect
unfolding clean
set_protected cp paths = record cp { protected = map clean paths }

unfoldable pub set_masked : ConfigProtect → List Text → ConfigProtect
unfolding clean
set_masked cp paths = record cp { masked = map clean paths }

pub record FileSystem : Type 0 where
  pub files : List Text
  pub refused : List Text

abbrev digit_char : ℕ → ℕ
digit_char n = n % 10 + b'0'

-- `%04d` of a number below 10000.
abbrev pub four_digits : ℕ → Text
four_digits n =
    digit_char (n / 1000) ∷ digit_char (n / 100) ∷ digit_char (n / 10) ∷ digit_char n ∷ []

unfoldable pub candidate : Text → ℕ → Text
unfolding dir base join
candidate path i = join (dir path) (codes "._cfg" ++ (four_digits i ++ (codes "_" ++ base path)))

-- `os.OpenFile` with O_CREATE and O_EXCL.
unfoldable pub create : FileSystem → Text → Option FileSystem
unfolding contains
create fs path =
    if contains path fs.files || contains path fs.refused
    then none
    else some (record fs { files = fs.files ++ path ∷ [] })

-- The loop from the number `i` on, with `left` numbers to go.
unfoldable pub try_numbers : ℕ → ℕ → FileSystem → Text → FileSystem × Text
unfolding candidate create
try_numbers zero i fs path = (fs, [])
try_numbers (suc left) i fs path =
    let later = try_numbers left (suc i) fs path in
    elim (create fs (candidate path i)) [ none ↦ later | some fs' ↦ (fs', candidate path i) ]

unfoldable pub generate_protected_name : FileSystem → Text → FileSystem × Text
unfolding try_numbers
generate_protected_name fs path = try_numbers 10000 0 fs path

-- What stands between the prefix and the suffix; `none` is a slice whose end is before its start.
unfoldable pub middle_of : Text → Text → Text → Option Text
middle_of prefix suffix name =
    if ltb (length name) (length prefix + length suffix)
    then none
    else some (drop (length prefix) (take (length name - length suffix) name))

-- The loop over the entries of the directory; `none` is a panic.
unfoldable pub configs_of : Text → Text → List Text → Option (List Text)
unfolding has_prefix has_suffix middle_of join
configs_of directory suffix [] = some []
configs_of directory suffix (name ∷ names) =
    let later = configs_of directory suffix names in
    let matching : Option (List Text) = elim (middle_of (codes "._cfg") suffix name) [
      | none ↦ none
      | some middle ↦ elim later [
        | none ↦ none
        | some configs ↦ some (
            if (length middle == 4) && all is_digit middle
            then join directory name ∷ configs
            else configs)
      ]
    ] in
    if has_prefix name (codes "._cfg") && has_suffix name suffix then matching else later

-- The entries of the directory of the path, if it exists.
unfoldable pub find_existing_configs : Option (List Text) → Text → Option (List Text)
unfolding configs_of dir base sort_by
find_existing_configs none path = some []
find_existing_configs (some names) path =
    elim (configs_of (dir path) (codes "_" ++ base path) names) [
      | none ↦ none
      | some configs ↦ some (sort configs)
    ]
