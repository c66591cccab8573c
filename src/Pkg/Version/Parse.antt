-- ===== src/Pkg/Version/Parse.antt =====
-- `parseVersion` and `NewVersion` of internal/pkg/version.go. The four regular expressions are a
-- record of functions: what `MatchString` and `FindStringSubmatch` return for them.
pub mod Sound
pub mod Bounds
use grpm.Base.{
  ℕ, ◌-◌, Bool, true, false, ◌&&◌, Option, none, some, List, [], ◌∷◌, length, take, drop, ltb, ◌==◌,
  if◌then◌else◌, Text, text_eq, split_on, codes,
}
use grpm.Base.Decimal.{atoi}
use grpm.Base.Result.{Result, ok, err, ◌>>=◌, or_error}
use grpm.Pkg.Version.{Version, VersionComponent, VersionSuffix, is_empty}

pub record VersionRegexes : Type 0 where
  pub digit_match : Text → Bool  -- versionDigitRe
  pub revision_match : Text → Option (Text × Text)  -- versionRevisionRe: the match and its group
  pub suffix_starts : Text → List ℕ  -- versionSuffixRe: where the matches start
  pub suffix_matches : Text → List (Text × Text)  -- versionSuffixRe: the two groups of each match
  pub main_match : Text → Option (Text × Text)  -- versionMainRe: its two groups

pub data VersionError : Type 0 where
  empty_version must_start_with_digit bad_main no_components version_invalid : VersionError
  bad_revision bad_suffix_number bad_component : Text → VersionError

-- One pass of the loop over the suffix matches.
unfoldable pub parse_suffix : Text × Text → Result VersionError VersionSuffix
parse_suffix (kind, digits) =
    if is_empty digits then ok (record { kind = kind; number = 0 }) else do
      num ← or_error (bad_suffix_number digits) (atoi digits)
      ok (record { kind = kind; number = num })

unfoldable pub parse_suffixes : List (Text × Text) → Result VersionError (List VersionSuffix)
parse_suffixes [] = ok []
parse_suffixes (m ∷ ms) = do suffix ← parse_suffix m; rest ← parse_suffixes ms; ok (suffix ∷ rest)

abbrev pub first_is_zero : Text → Bool
first_is_zero [] = false
first_is_zero (c ∷ s) = c == b'0'

unfoldable pub parse_component : Text → Result VersionError VersionComponent
parse_component part = do
  num ← or_error (bad_component part) (atoi part)
  ok (record {
    value = num;
    has_leading_zero = ltb 1 (length part) && first_is_zero part;
    original = part;
  })

-- The loop over the parts of the numeric text; it passes over an empty part.
unfoldable pub parse_components : List Text → Result VersionError (List VersionComponent)
parse_components [] = ok []
parse_components ([] ∷ parts) = parse_components parts
parse_components ((c ∷ s) ∷ parts) = do
  comp ← parse_component (c ∷ s)
  rest ← parse_components parts
  ok (comp ∷ rest)

-- Step 1: the revision, and what is left.
unfoldable pub revision_of : Text → Option (Text × Text) → Result VersionError (ℕ × Text)
revision_of s none = ok (0, s)
revision_of s (some (whole, digits)) = do
  num ← or_error (bad_revision digits) (atoi digits)
  ok (num, take (length s - length whole) s)

-- Step 2: the suffixes, and what is left.
unfoldable pub suffixes_of :
    VersionRegexes → Text → List ℕ → Result VersionError (List VersionSuffix × Text)
suffixes_of r s [] = ok ([], s)
suffixes_of r s (start ∷ _) = do
  suffixes ← parse_suffixes (r.suffix_matches (drop start s))
  ok (suffixes, take start s)

-- Step 3: the numeric components and the letter.
unfoldable pub parse_main :
    VersionRegexes → Text → Result VersionError (List VersionComponent × Text)
parse_main r s = do
  (numeric, letter) ← or_error bad_main (r.main_match s)
  components ← parse_components (split_on b'.' numeric)
  if is_empty components then err no_components else ok (components, letter)

unfoldable pub parse_version : VersionRegexes → Text → Result VersionError Version
parse_version r s =
    if is_empty s
    then err empty_version
    else if r.digit_match s
    then (do
      (revision, without_revision) ← revision_of s (r.revision_match s)
      (suffixes, main) ← suffixes_of r without_revision (r.suffix_starts without_revision)
      (components, letter) ← parse_main r main
      ok (record {
        raw = s;
        components = components;
        letter_suffix = letter;
        suffixes = suffixes;
        revision = revision;
      }))
    else err must_start_with_digit

-- `NewVersion` wraps every error of the parser in one.
unfoldable pub new_version : VersionRegexes → Text → Result VersionError Version
unfolding parse_version
new_version r s =
    if is_empty s
    then err empty_version
    else elim (parse_version r s) [ ok v ↦ ok v | err e ↦ err version_invalid ]
