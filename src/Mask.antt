-- ===== src/Mask.antt =====
-- internal/mask/manager.go: package masks by source. `config.ParseAtom` never returns nil, so an
-- entry has an atom. The files of a directory or a profile are a parameter, by their lines.
pub mod Decides
mod Tests
use grpm.Base.{
  ℕ, Bool, true, false, not, ◌&&◌, ◌||◌, Option, none, some, List, [], ◌∷◌, ◌++◌, map, length, drop,
  if◌then◌else◌, is_some, Text, codes, text_eq, has_prefix, has_suffix, trim_space,
}
use grpm.Base.Assoc.{lookup, insert, keys}
use grpm.Base.Sort.{sort, sort_by}
use grpm.Pkg.Version.{is_empty}
use grpm.Pkg.VersionConstraint.{Regexes}
use grpm.Pkg.Package.{Package}
use grpm.Config.Atom.{PackageAtom, parse_atom, matches, cut}

pub record MaskEntry : Type 0 where
  pub atom : PackageAtom
  pub source : Text
  pub source_file : Text
  pub is_negation : Bool

abbrev pub Index : Type 0
Index = List (Text × List MaskEntry)

pub record MaskManager : Type 0 where
  pub repo_masks : List MaskEntry
  pub profile_masks : List MaskEntry
  pub user_masks : List MaskEntry
  pub user_unmasks : List MaskEntry
  pub mask_index : Index
  pub unmask_index : Index

-- `m[cp]`; a missing key reads as nil.
unfoldable pub entries_at : Text → Index → List MaskEntry
unfolding lookup
entries_at cp m = elim (lookup cp m) [ none ↦ [] | some l ↦ l ]

unfoldable pub append_at : Text → MaskEntry → Index → Index
unfolding entries_at insert
append_at cp entry m = insert cp (entries_at cp m ++ entry ∷ []) m

abbrev pub package_key : Text → Text → Text
package_key category name = category ++ (codes "/" ++ name)

abbrev pub key_of : MaskEntry → Text
key_of entry = package_key entry.atom.category entry.atom.name

unfoldable pub add_to_mask_index : MaskManager → MaskEntry → MaskManager
unfolding append_at
add_to_mask_index m entry =
    if entry.is_negation
    then record m { unmask_index = append_at (key_of entry) entry m.unmask_index }
    else record m { mask_index = append_at (key_of entry) entry m.mask_index }

unfoldable pub add_to_unmask_index : MaskManager → MaskEntry → MaskManager
unfolding append_at
add_to_unmask_index m entry = record m {
  unmask_index = append_at (key_of entry) entry m.unmask_index;
}

unfoldable pub add_masks : MaskManager → List MaskEntry → MaskManager
unfolding add_to_mask_index
add_masks m [] = m
add_masks m (entry ∷ entries) = add_masks (add_to_mask_index m entry) entries

unfoldable pub add_unmasks : MaskManager → List MaskEntry → MaskManager
unfolding add_to_unmask_index
add_unmasks m [] = m
add_unmasks m (entry ∷ entries) = add_unmasks (add_to_unmask_index m entry) entries

unfoldable pub build_index : MaskManager → MaskManager
unfolding add_masks add_unmasks
build_index m =
    add_unmasks (add_masks (add_masks (add_masks m m.repo_masks) m.profile_masks) m.user_masks)
      m.user_unmasks

-- `NewMaskManager` on what the files hold.
unfoldable pub new_mask_manager :
    List MaskEntry → List MaskEntry → List MaskEntry → List MaskEntry → MaskManager
unfolding build_index
new_mask_manager repo profile user unmasks = build_index (record {
  repo_masks = repo;
  profile_masks = profile;
  user_masks = user;
  user_unmasks = unmasks;
  mask_index = [];
  unmask_index = [];
})

module _ (r : Regexes) where
  -- The first entry that matches.
  unfoldable pub find_match : List MaskEntry → Text → Text → Text → Text → Option MaskEntry
  unfolding matches
  find_match [] category name version slot = none
  find_match (entry ∷ entries) category name version slot =
      let later = find_match entries category name version slot in
      if matches r entry.atom category name version slot then some entry else later

  unfoldable pub is_unmasked : MaskManager → Text → Text → Text → Text → Bool
  unfolding entries_at find_match
  is_unmasked m category name version slot = is_some (
      find_match (entries_at (package_key category name) m.unmask_index) category name version slot)

  -- The entry that `GetMaskAtom` and `GetMaskReason` read their results from.
  unfoldable pub mask_of : MaskManager → Text → Text → Text → Text → Option MaskEntry
  unfolding is_unmasked entries_at find_match
  mask_of m category name version slot =
      if is_unmasked m category name version slot
      then none
      else find_match (entries_at (package_key category name) m.mask_index) category name version
          slot

  unfoldable pub is_masked : MaskManager → Text → Text → Text → Text → Bool
  unfolding is_unmasked entries_at find_match
  is_masked m category name version slot =
      if is_unmasked m category name version slot
      then false
      else is_some (
          find_match (entries_at (package_key category name) m.mask_index) category name version
            slot)

  unfoldable pub get_mask_atom : MaskManager → Text → Text → Text → Text → Option PackageAtom
  unfolding mask_of
  get_mask_atom m category name version slot = elim (mask_of m category name version slot) [
    | none ↦ none
    | some entry ↦ some entry.atom
  ]

  unfoldable pub get_mask_reason : MaskManager → Text → Text → Text → Text → Text × Text
  unfolding mask_of
  get_mask_reason m category name version slot = elim (mask_of m category name version slot) [
    | none ↦ ([], [])
    | some entry ↦ (entry.atom.raw, entry.source)
  ]

-- A name without a slash is not masked.
module _ {Atom : Type 0} where
  unfoldable pub is_package_masked : Regexes → MaskManager → Option (Package Atom) → Bool
  unfolding is_masked cut
  is_package_masked r m none = false
  is_package_masked r m (some p) = elim (cut (codes "/") p.name) [
    | none ↦ false
    | some (category, name) ↦ is_masked r m category name p.version p.slot.name
  ]

-- The loop of `loadMaskFile` over the lines.
unfoldable pub mask_entries : Text → Text → List Text → List MaskEntry
unfolding trim_space has_prefix parse_atom
mask_entries source file [] = []
mask_entries source file (raw ∷ lines) =
    let line = trim_space raw in
    let rest = mask_entries source file lines in
    let negated = has_prefix line (codes "-") in
    let atom = parse_atom (if negated then drop 1 line else line) in
    if is_empty line || has_prefix line (codes "#")
    then rest
    else if is_empty atom.category || is_empty atom.name
    then rest
    else record { atom = atom; source = source; source_file = file; is_negation = negated } ∷ rest

pub record MaskStats : Type 0 where
  pub repo_mask_count : ℕ
  pub profile_mask_count : ℕ
  pub user_mask_count : ℕ
  pub user_unmask_count : ℕ
  pub total_masked_cp : ℕ
  pub total_unmasked_cp : ℕ

unfoldable pub get_stats : MaskManager → MaskStats
get_stats m = record {
  repo_mask_count = length m.repo_masks;
  profile_mask_count = length m.profile_masks;
  user_mask_count = length m.user_masks;
  user_unmask_count = length m.user_unmasks;
  total_masked_cp = length m.mask_index;
  total_unmasked_cp = length m.unmask_index;
}

unfoldable pub get_all_masked_packages : MaskManager → List Text
unfolding sort_by
get_all_masked_packages m = sort (keys m.mask_index)
