-- ===== src/State/Sets.antt =====
-- internal/state/sets.go: the package sets @selected, @system and @world and the world file. The
-- file is its bytes; the packages of the profile, which it reads from other files, are a field.
pub mod Updates
use grpm.Base.{
  ℕ, Bool, true, false, not, ◌&&◌, Option, none, some, List, [], ◌∷◌, ◌++◌, length, leb, any,
  if◌then◌else◌, Text, codes, text_eq, has_prefix, has_suffix, trim_suffix, trim_space, split_on,
}
use grpm.Base.Assoc.{contains}
use grpm.Base.Sort.{sort, sort_by}
use grpm.Base.Result.{Result, ok, err}
use grpm.Pkg.Version.{is_empty}

-- `SetName`, with the constants `SetWorld`, `SetSelected` and `SetSystem`.
abbrev pub set_world : Text
set_world = codes "@world"

abbrev pub set_selected : Text
set_selected = codes "@selected"

abbrev pub set_system : Text
set_system = codes "@system"

-- The map `atomSet` is the list of its keys.
pub record PackageSet : Type 0 where
  pub name : Text
  pub atoms : List Text
  pub atom_set : List Text

-- The loop of `NewPackageSet`; the map and the slice hold the same atoms.
unfoldable pub unique_atoms : List Text → List Text → List Text
unfolding trim_space contains
unique_atoms [] unique = unique
unique_atoms (raw ∷ atoms) unique =
    let atom = trim_space raw in
    unique_atoms atoms (
      if is_empty atom
      then unique
      else if contains atom unique
      then unique
      else unique ++ atom ∷ [])

unfoldable pub new_package_set : Text → List Text → PackageSet
unfolding unique_atoms sort_by
new_package_set name atoms =
    let unique = unique_atoms atoms [] in
    record { name = name; atoms = sort unique; atom_set = unique }

unfoldable pub set_contains : PackageSet → Text → Bool
unfolding contains
set_contains s atom = contains atom s.atom_set

unfoldable pub union : PackageSet → PackageSet → PackageSet
unfolding new_package_set
union s other = new_package_set set_world (s.atoms ++ other.atoms)

-- What opening a file gives.
pub data OpenedFile : Type 0 where
  missing : OpenedFile
  unreadable : Text → OpenedFile
  content : Text → OpenedFile

pub data SetError : Type 0 where
  read_world : Text → SetError
  too_long : SetError
  read_profile : Text → SetError
  unknown_set : Text → SetError

-- The lines of `bufio.Scanner`, without the carriage return, and before that whether one is longer
-- than its buffer.
unfoldable pub lines_of : List Text → List Text
unfolding trim_suffix
lines_of [] = []
lines_of (l ∷ []) = if is_empty l then [] else trim_suffix l (13 ∷ []) ∷ []
lines_of (l ∷ ls) = trim_suffix l (13 ∷ []) ∷ lines_of ls

abbrev pub is_too_long : Text → Bool
is_too_long l = leb 65536 (length l)

-- The loop of `parseWorldFile`.
unfoldable pub world_atoms : List Text → List Text
unfolding trim_space has_prefix
world_atoms [] = []
world_atoms (raw ∷ ls) =
    let line = trim_space raw in
    let atoms = world_atoms ls in
    if is_empty line then atoms else if has_prefix line (codes "#") then atoms else line ∷ atoms

unfoldable pub parse_world_file : OpenedFile → Result SetError (List Text)
unfolding split_on world_atoms lines_of
parse_world_file missing = ok []
parse_world_file (unreadable e) = err (read_world e)
parse_world_file (content bytes) =
    let lines = split_on 10 bytes in
    if any is_too_long lines then err too_long else ok (world_atoms (lines_of lines))

-- `system_packages` is what loading the profile and `GetSystemPackages` give.
pub record SetManager : Type 0 where
  pub world_file : OpenedFile
  pub system_packages : Result Text (List Text)

unfoldable pub get_selected : SetManager → Result SetError PackageSet
unfolding parse_world_file new_package_set
get_selected m = elim (parse_world_file m.world_file) [
  | err e ↦ err e
  | ok atoms ↦ ok (new_package_set set_selected atoms)
]

unfoldable pub get_system : SetManager → Result SetError PackageSet
unfolding new_package_set
get_system m = elim m.system_packages [
  | err e ↦ err (read_profile e)
  | ok atoms ↦ ok (new_package_set set_system atoms)
]

unfoldable pub get_world : SetManager → Result SetError PackageSet
unfolding get_selected get_system union
get_world m = elim (get_selected m) [
  | err e ↦ err e
  | ok selected ↦ elim (get_system m) [
    | err e ↦ err e
    | ok system ↦ ok (record (union selected system) { name = set_world })
  ]
]

unfoldable pub get_set : SetManager → Text → Result SetError PackageSet
unfolding get_world get_selected get_system text_eq
get_set m name =
    if text_eq name set_world
    then get_world m
    else if text_eq name set_selected
    then get_selected m
    else if text_eq name set_system
    then get_system m
    else err (unknown_set name)

-- One line for each atom.
unfoldable pub print_lines : List Text → Text
print_lines [] = []
print_lines (atom ∷ atoms) = atom ++ (10 ∷ print_lines atoms)

-- A write that the file system carries out.
unfoldable pub write_world : SetManager → PackageSet → SetManager
unfolding print_lines
write_world m s = record m { world_file = content (print_lines s.atoms) }

abbrev pub or_empty : Result SetError PackageSet → PackageSet
or_empty (ok s) = s
or_empty (err e) = new_package_set set_selected []

unfoldable pub add_to_world : SetManager → Text → SetManager
unfolding get_selected new_package_set set_contains write_world
add_to_world m atom =
    let selected = or_empty (get_selected m) in
    if set_contains selected atom
    then m
    else write_world m (new_package_set set_selected (selected.atoms ++ atom ∷ []))

unfoldable pub without : Text → List Text → List Text
unfolding text_eq
without atom [] = []
without atom (a ∷ atoms) =
    let rest = without atom atoms in if not (text_eq a atom) then a ∷ rest else rest

unfoldable pub remove_from_world : SetManager → Text → SetManager
unfolding get_selected new_package_set set_contains write_world without
remove_from_world m atom = elim (get_selected m) [
  | err e ↦ m
  | ok selected ↦
      if not (set_contains selected atom)
      then m
      else write_world m (new_package_set set_selected (without atom selected.atoms))
]
