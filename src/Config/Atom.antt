-- ===== src/Config/Atom.antt =====
-- internal/config/atom.go: the atoms of package.use, package.mask and the like.
mod Tests
use grpm.Base.{
  ℕ, ◌+◌, Bool, true, false, not, ◌&&◌, ◌||◌, Option, none, some, List, [], ◌∷◌, ◌++◌, length, drop,
  ◌==◌, all, any, if◌then◌else◌, Text, codes, text_eq, has_prefix, has_suffix, trim_suffix,
  is_digit,
}
use grpm.Base.Int.{ℤ, pos, negsuc, ltb_ℤ, is_zero_ℤ}
use grpm.Base.Assoc.{contains}
use grpm.Base.Fields.{to_lower}
use grpm.Pkg.Version.{is_empty}
use grpm.Pkg.VersionConstraint.{Regexes, compare_version_texts}
use grpm.Solver.BaseAtom.{trim_prefix, before_version}

pub record PackageAtom : Type 0 where
  pub operator : Text
  pub category : Text
  pub name : Text
  pub version : Text
  pub slot : Text
  pub repository : Text
  pub raw : Text

-- What stands before and after the first occurrence of `sep`.
unfoldable pub cut : Text → Text → Option (Text × Text)
unfolding has_prefix
cut sep [] = if is_empty sep then some ([], []) else none
cut sep (c ∷ s) =
    let later = cut sep s in
    if has_prefix (c ∷ s) sep
    then some ([], drop (length sep) (c ∷ s))
    else elim later [ none ↦ none | some (before, after) ↦ some (c ∷ before, after) ]

abbrev pub cut_or : Text → Text → Text × Text
cut_or sep s = elim (cut sep s) [ none ↦ (s, []) | some parts ↦ parts ]

abbrev pub version_operators : List Text
version_operators =
    codes ">=" ∷ codes "<=" ∷ codes ">" ∷ codes "<" ∷ codes "~" ∷ codes "=*" ∷ codes "=" ∷ []

-- The first operator that the atom begins with, and what is behind it.
unfoldable pub split_operator : List Text → Text → Text × Text
unfolding has_prefix trim_prefix
split_operator [] atom = ([], atom)
split_operator (op ∷ ops) atom =
    let later = split_operator ops atom in
    if has_prefix atom op then (op, trim_prefix atom op) else later

unfoldable pub split_glob : Text × Text → Text × Text
unfolding text_eq has_suffix trim_suffix
split_glob (op, atom) =
    if text_eq op (codes "=*")
    then (op, atom)
    else if text_eq op (codes "=") && has_suffix atom (codes "*")
    then (codes "=*", trim_suffix atom (codes "*"))
    else (op, atom)

-- The name and the version of what stands behind the category.
unfoldable pub split_version : Text → Text → Text × Text
unfolding before_version
split_version op name_version =
    if not (is_empty op)
    then elim (before_version name_version) [
      | none ↦ (name_version, [])
      | some name ↦
          if is_empty name then (name_version, []) else (name, drop (length name + 1) name_version)
    ]
    else (name_version, [])

unfoldable pub parse_atom : Text → PackageAtom
unfolding cut split_operator split_glob split_version
parse_atom raw =
    let (before_repository, repository) = cut_or (codes "::") raw in
    let (before_slot, slot) = cut_or (codes ":") before_repository in
    let (op, atom) = split_glob (split_operator version_operators before_slot) in
    let result : PackageAtom = record {
      operator = op;
      category = [];
      name = [];
      version = [];
      slot = slot;
      repository = repository;
      raw = raw;
    } in
    elim (cut (codes "/") atom) [
      | none ↦ result
      | some (category, name_version) ↦
          let (name, version) = split_version op name_version in
          record result { category = category; name = name; version = version }
    ]

-- `strings.Contains(s, "*")`.
unfoldable pub has_star : Text → Bool
has_star s = any (λ c. c == b'*') s

-- `AtomSpecificity`.
unfoldable pub get_specificity : PackageAtom → ℤ
unfolding contains text_eq has_star
get_specificity a =
    if has_star a.category || has_star a.name
    then if not (is_empty a.slot) then pos 0 else negsuc 0
    else if text_eq a.operator (codes "=")
    then pos 6
    else if text_eq a.operator (codes "~")
    then pos 5
    else if text_eq a.operator (codes "=*")
    then pos 4
    else if contains a.operator (codes ">=" ∷ codes "<=" ∷ codes ">" ∷ codes "<" ∷ [])
    then pos 2
    else if not (is_empty a.slot)
    then pos 3
    else pos 1

unfoldable pub match_pattern : Text → Text → Bool
unfolding text_eq has_prefix has_suffix trim_suffix trim_prefix
match_pattern pattern value =
    if text_eq pattern (codes "*")
    then true
    else if text_eq pattern value
    then true
    else if has_suffix pattern (codes "*")
    then has_prefix value (trim_suffix pattern (codes "*"))
    else if has_prefix pattern (codes "*")
    then has_suffix value (trim_prefix pattern (codes "*"))
    else false

abbrev pub match_subslots : Option (Text × Text) → Option (Text × Text) → Bool
match_subslots (some (_, s)) (some (_, t)) = text_eq s t || text_eq s (codes "*")
match_subslots none p = true
match_subslots (some s) none = true

unfoldable pub match_slot : Text → Text → Bool
unfolding text_eq cut
match_slot atom_slot pkg_slot =
    let atom_main = (cut_or (codes "/") atom_slot).0 in
    let pkg_main = (cut_or (codes "/") pkg_slot).0 in
    if text_eq atom_slot (codes "*")
    then true
    else if not (text_eq atom_main pkg_main) && not (text_eq atom_main (codes "*"))
    then false
    else match_subslots (cut (codes "/") atom_slot) (cut (codes "/") pkg_slot)

abbrev pub is_revision : Text → Bool
is_revision (c ∷ s) = (c == b'r') && (not (is_empty s) && all is_digit s)
is_revision [] = false

-- What stands before the last `-r` with digits only behind it.
unfoldable pub before_revision : Text → Text
before_revision [] = []
before_revision (c ∷ s) = if (c == b'-') && is_revision s then [] else c ∷ before_revision s

-- The hyphen is not the first byte.
unfoldable pub strip_revision : Text → Text
unfolding before_revision
strip_revision [] = []
strip_revision (c ∷ s) = c ∷ before_revision s

unfoldable pub match_version : Regexes → PackageAtom → Text → Bool
unfolding compare_version_texts strip_revision text_eq has_prefix
match_version r a pkg_version =
    let cmp = compare_version_texts r pkg_version a.version in
    if is_empty pkg_version
    then is_empty a.operator
    else if text_eq a.operator (codes "=")
    then is_zero_ℤ cmp
    else if text_eq a.operator (codes ">=")
    then not (ltb_ℤ cmp (pos 0))
    else if text_eq a.operator (codes "<=")
    then not (ltb_ℤ (pos 0) cmp)
    else if text_eq a.operator (codes ">")
    then ltb_ℤ (pos 0) cmp
    else if text_eq a.operator (codes "<")
    then ltb_ℤ cmp (pos 0)
    else if text_eq a.operator (codes "~")
    then is_zero_ℤ (compare_version_texts r (strip_revision pkg_version) (strip_revision a.version))
    else if text_eq a.operator (codes "=*")
    then has_prefix pkg_version a.version
    else true

unfoldable pub matches : Regexes → PackageAtom → Text → Text → Text → Text → Bool
unfolding match_pattern match_slot match_version
matches r a category name version slot =
    if not (match_pattern a.category category)
    then false
    else if not (match_pattern a.name name)
    then false
    else if (not (is_empty a.slot) && not (is_empty slot)) && not (match_slot a.slot slot)
    then false
    else if (not (is_empty a.operator) && not (is_empty a.version))
        && not (match_version r a version)
    then false
    else true

-- The loop of `expandUSEExpand`, with the prefix that the last group set.
unfoldable pub expand_flags : Text → List Text → List Text
unfolding has_suffix has_prefix trim_suffix to_lower
expand_flags prefix [] = []
expand_flags prefix (flag ∷ flags) =
    let group = expand_flags (to_lower (trim_suffix flag (codes ":")) ++ codes "_") flags in
    let rest = expand_flags prefix flags in
    if has_suffix flag (codes ":")
    then group
    else if not (is_empty prefix)
    then if has_prefix flag (codes "-")
      then (codes "-" ++ (prefix ++ drop 1 flag)) ∷ rest
      else (prefix ++ flag) ∷ rest
    else flag ∷ rest

-- `expandUSEExpand`.
unfoldable pub expand_use_expand : List Text → List Text
unfolding expand_flags
expand_use_expand flags = expand_flags [] flags
