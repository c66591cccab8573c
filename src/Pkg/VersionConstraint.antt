-- ===== src/Pkg/VersionConstraint.antt =====
-- internal/pkg/constraint.go: version constraints, and the legacy parser of internal/pkg/version.go.
-- A nil constraint is `none`; the result of an index out of range is `none` as well.
pub mod Satisfies
pub mod Print
mod Tests
use grpm.Base.{
  ℕ, ◌+◌, ◌-◌, Bool, true, false, not, ◌&&◌, ◌||◌, Option, none, some, List, [], ◌∷◌, ◌++◌, length,
  take, drop, ltb, ◌==◌, if◌then◌else◌, Text, codes, text_eq, text_compare, has_prefix, all,
  is_digit, get_elem?, trim_space,
}
use grpm.Base.Order.{Ordering}
use grpm.Base.Int.{ℤ, pos, negsuc, sub_ℕ, ltb_ℤ}
use grpm.Base.Assoc.{lookup}
use grpm.Base.Result.{Result, ok, err}
use grpm.Base.Decimal.{atoi}
use grpm.Pkg.Version.{Version, compare_versions, is_empty, strings_compare}
use grpm.Pkg.Version.Parse.{VersionRegexes, VersionError, parse_version}
use grpm.Pkg.Use.{Flags, flag_of}

pub data VersionOperator : Type 0 where
  op_equal op_greater op_greater_equal op_less op_less_equal op_equal_glob op_revision_match :
      VersionOperator

pub record VersionConstraint : Type 0 where
  pub operator : VersionOperator
  pub version : Text

-- What stands before and after the last `-r`, if there is one.
unfoldable pub last_revision : Text → Option (Text × Text)
unfolding has_prefix
last_revision [] = none
last_revision (c ∷ s) = elim (last_revision s) [
  | some (before, after) ↦ some (c ∷ before, after)
  | none ↦ if has_prefix (c ∷ s) (codes "-r") then some ([], drop 1 s) else none
]

abbrev pub without : Text → Option (Text × Text) → Text
without version none = version
without version (some (before, rev)) = if all is_digit rev then before else version

unfoldable pub strip_revision : Text → Text
unfolding last_revision
strip_revision version = without version (last_revision version)

-- The regular expressions of the version parser and that of `legacyParseComponents`: all matches.
pub record Regexes : Type 0 where
  pub versions : VersionRegexes
  pub legacy_find_all : Text → List Text

pub data LegacyPart : Type 0 where
  number : ℕ → LegacyPart
  letters : Text → LegacyPart

abbrev pub legacy_part : Text → Option ℕ → LegacyPart
legacy_part part none = letters part
legacy_part part (some num) = number num

unfoldable pub legacy_parts : List Text → List LegacyPart
unfolding atoi
legacy_parts [] = []
legacy_parts (part ∷ parts) = legacy_part part (atoi part) ∷ legacy_parts parts

unfoldable pub legacy_parse_components : Regexes → Text → List LegacyPart
unfolding legacy_parts
legacy_parse_components r v = legacy_parts (r.legacy_find_all v)

-- The loop of `legacyCompareVersions`, and the lengths behind it.
unfoldable pub compare_legacy_parts : List LegacyPart → List LegacyPart → ℤ
unfolding text_compare
compare_legacy_parts [] parts2 = sub_ℕ 0 (length parts2)
compare_legacy_parts (p ∷ parts1) [] = sub_ℕ (length (p ∷ parts1)) 0
compare_legacy_parts (number a ∷ parts1) (number b ∷ parts2) =
    let rest = compare_legacy_parts parts1 parts2 in if not (a == b) then sub_ℕ a b else rest
compare_legacy_parts (number a ∷ parts1) (letters b ∷ parts2) = pos 1
compare_legacy_parts (letters a ∷ parts1) (letters b ∷ parts2) =
    let rest = compare_legacy_parts parts1 parts2 in
    elim (text_compare a b) [ Ordering.eq ↦ rest | Ordering.lt ↦ negsuc 0 | Ordering.gt ↦ pos 1 ]
compare_legacy_parts (letters a ∷ parts1) (number b ∷ parts2) = negsuc 0

unfoldable pub legacy_compare_versions : Regexes → Text → Text → ℤ
unfolding compare_legacy_parts legacy_parse_components
legacy_compare_versions r v1 v2 =
    compare_legacy_parts (legacy_parse_components r v1) (legacy_parse_components r v2)

-- `compareVersions` on two versions that parse, and else the fallback.
abbrev pub compare_parsed : Result VersionError Version → Result VersionError Version → ℤ → ℤ
compare_parsed (ok ver1) (ok ver2) fallback = compare_versions ver1 ver2
compare_parsed (ok ver1) (err e) fallback = fallback
compare_parsed (err e) p fallback = fallback

-- `CompareVersions`.
unfoldable pub compare_version_texts : Regexes → Text → Text → ℤ
unfolding legacy_compare_versions parse_version compare_versions
compare_version_texts r v1 v2 =
    compare_parsed (parse_version r.versions v1) (parse_version r.versions v2)
      (legacy_compare_versions r v1 v2)

abbrev pub is_separator : ℕ → Bool
is_separator c = (c == b'.') || (c == b'_') || (c == b'-')

abbrev pub separator_at : Option ℕ → Option Bool
separator_at none = none
separator_at (some next) = some (is_separator next)

-- The case `OpEqualGlob` of `Satisfies`.
unfoldable pub satisfies_glob : Text → Text → Option Bool
unfolding text_eq has_prefix
satisfies_glob version wanted =
    if text_eq version wanted
    then some true
    else if not (has_prefix version wanted)
    then some false
    else separator_at (get_elem? version (length wanted))

unfoldable pub satisfies_operator : Regexes → VersionOperator → Text → Text → Option Bool
unfolding compare_version_texts satisfies_glob strip_revision text_eq
satisfies_operator r op_equal version wanted = some (text_eq version wanted)
satisfies_operator r op_greater version wanted =
    some (ltb_ℤ (pos 0) (compare_version_texts r version wanted))
satisfies_operator r op_greater_equal version wanted =
    some (not (ltb_ℤ (compare_version_texts r version wanted) (pos 0)))
satisfies_operator r op_less version wanted =
    some (ltb_ℤ (compare_version_texts r version wanted) (pos 0))
satisfies_operator r op_less_equal version wanted =
    some (not (ltb_ℤ (pos 0) (compare_version_texts r version wanted)))
satisfies_operator r op_equal_glob version wanted = satisfies_glob version wanted
satisfies_operator r op_revision_match version wanted =
    some (text_eq (strip_revision version) (strip_revision wanted))

-- `Satisfies`: `none` is a panic.
unfoldable pub satisfies : Regexes → Option VersionConstraint → Text → Option Bool
unfolding satisfies_operator
satisfies r none version = some true
satisfies r (some vc) version = satisfies_operator r vc.operator version vc.version

-- `String`.
unfoldable pub print : Option VersionConstraint → Text
print none = codes "any"
print (some vc) = elim vc.operator [
  | op_equal ↦ vc.version
  | op_greater ↦ codes ">" ++ vc.version
  | op_greater_equal ↦ codes ">=" ++ vc.version
  | op_less ↦ codes "<" ++ vc.version
  | op_less_equal ↦ codes "<=" ++ vc.version
  | op_equal_glob ↦ codes "=" ++ vc.version ++ codes "*"
  | op_revision_match ↦ codes "unknown"
]

abbrev pub constraint : VersionOperator → Text → Option VersionConstraint
constraint op version = some (record { operator = op; version = version })

-- `ParseVersionConstraint`, which has no error; the empty text is the nil constraint.
unfoldable pub parse_version_constraint : Text → Option VersionConstraint
unfolding has_prefix trim_space
parse_version_constraint s =
    if is_empty s
    then none
    else if has_prefix s (codes ">=")
    then constraint op_greater_equal (trim_space (drop 2 s))
    else if has_prefix s (codes "<=")
    then constraint op_less_equal (trim_space (drop 2 s))
    else if has_prefix s (codes ">")
    then constraint op_greater (trim_space (drop 1 s))
    else if has_prefix s (codes "<")
    then constraint op_less (trim_space (drop 1 s))
    else if has_prefix s (codes "=")
    then constraint op_equal (trim_space (drop 1 s))
    else constraint op_equal s
