-- ===== src/Pkg/Version/Tests.antt =====
-- Runs of the versions of internal/pkg/version.go.
use grpm.Base.{
  All, ℕ, ◌≤◌, ◌≡◌, ◌≢◌, refl, Bool, true, false, not, ◌||◌, none, some, List, [], ◌∷◌, ◌++◌,
  length, Text, codes, is_digit, text_eq, split_on,
}
use grpm.Base.Int.{pos}
use grpm.Base.Result.{ok}
use grpm.Base.Decimal.{atoi}
use grpm.Pkg.Version.{
  Version, VersionComponent, no_component, compare_versions, compare_to, is_less_than,
  is_greater_than, is_less_than_or_equal, is_greater_than_or_equal,
}
use grpm.Pkg.Version.Sign.{IsParsed}
use grpm.Pkg.Version.Total.{comparison_consistent, less_than_or_equal_trans}
use grpm.Pkg.Version.Pms.{letter_before_none, trailing_zero_equal}
use grpm.Pkg.Version.Parse.{
  VersionRegexes, parse_version, revision_of, suffixes_of, parse_main, parse_components,
  parse_component,
}
use grpm.Pkg.Version.Parse.Sound.{IsBounded, HasDigits, parse_version_sound}
use grpm.Pkg.Version.Parse.Bounds.{InInt, compare_versions-InInt}

-- The regular expressions on texts of digits and dots.
abbrev starts_with_digit : Text → Bool
starts_with_digit [] = false
starts_with_digit (c ∷ s) = is_digit c

abbrev dotted : VersionRegexes
dotted = record {
  digit_match = starts_with_digit;
  revision_match = λ s. none;
  suffix_starts = λ s. [];
  suffix_matches = λ s. [];
  main_match = λ s. some (s, []);
}

abbrev plain : ℕ → Text → VersionComponent
plain n s = record { value = n; has_leading_zero = false; original = s }

abbrev numeric : Text → List VersionComponent → Version
numeric raw l = record {
  raw = raw;
  components = l;
  letter_suffix = [];
  suffixes = [];
  revision = 0;
}

abbrev one_two : Version
one_two = numeric (codes "1.2") (plain 1 (codes "1") ∷ plain 2 (codes "2") ∷ [])

abbrev two : Version
two = numeric (codes "2") (plain 2 (codes "2") ∷ [])

abbrev three : Version
three = numeric (codes "3") (plain 3 (codes "3") ∷ [])

one_two_parsed : parse_version dotted (codes "1.2") ≡ ok one_two
unfolding parse_version atoi text_eq revision_of suffixes_of parse_main parse_components split_on
    parse_component
one_two_parsed = refl

two_parsed : parse_version dotted (codes "2") ≡ ok two
unfolding parse_version atoi text_eq revision_of suffixes_of parse_main parse_components split_on
    parse_component
two_parsed = refl

three_parsed : parse_version dotted (codes "3") ≡ ok three
unfolding parse_version atoi text_eq revision_of suffixes_of parse_main parse_components split_on
    parse_component
three_parsed = refl

abbrev with_letter : Version
with_letter = record one_two { letter_suffix = codes "a" }

dotted-IsParsed : (s : Text) (v : Version) → parse_version dotted s ≡ ok v → IsParsed v
dotted-IsParsed s v e = let (_, p, _, _, _) = parse_version_sound dotted s v e in p

dotted-IsBounded : (s : Text) (v : Version) → parse_version dotted s ≡ ok v → IsBounded v
dotted-IsBounded s v e = let (_, _, _, b, _) = parse_version_sound dotted s v e in b

parse_version_sound_example :
    (one_two.raw ≡ codes "1.2")
    × IsParsed one_two
    × (1 ≤ length one_two.components)
    × IsBounded one_two
    × All HasDigits one_two.components
parse_version_sound_example = parse_version_sound dotted (codes "1.2") one_two one_two_parsed

comparison_consistent_example :
    (is_less_than_or_equal one_two one_two ≡ true)
    × ((is_less_than_or_equal one_two two || is_less_than_or_equal two one_two) ≡ true)
    × (is_less_than one_two two ≡ is_greater_than two one_two)
    × (is_less_than one_two two ≡ not (is_greater_than_or_equal one_two two))
comparison_consistent_example =
    comparison_consistent one_two two (dotted-IsParsed (codes "1.2") one_two one_two_parsed)
      (dotted-IsParsed (codes "2") two two_parsed)

one_two_le_two : is_less_than_or_equal one_two two ≡ true
unfolding is_less_than_or_equal
one_two_le_two = refl

two_le_three : is_less_than_or_equal two three ≡ true
unfolding is_less_than_or_equal
two_le_three = refl

less_than_or_equal_trans_example : is_less_than_or_equal one_two three ≡ true
less_than_or_equal_trans_example =
    less_than_or_equal_trans one_two two three
      (dotted-IsParsed (codes "1.2") one_two one_two_parsed)
      (dotted-IsParsed (codes "2") two two_parsed) (dotted-IsParsed (codes "3") three three_parsed)
      one_two_le_two two_le_three

letter_ne_none : codes "a" ≢ []
letter_ne_none e = cc

letter_before_none_example :
    is_less_than (record one_two { letter_suffix = codes "a" }) one_two ≡ true
letter_before_none_example =
    letter_before_none one_two (codes "a") (dotted-IsParsed (codes "1.2") one_two one_two_parsed)
      refl letter_ne_none

trailing_zero_equal_example :
    compare_to two (record two { components = two.components ++ no_component ∷ [] }) ≡ pos 0
trailing_zero_equal_example = trailing_zero_equal two (dotted-IsParsed (codes "2") two two_parsed)

compare_versions-InInt_example : InInt (compare_versions one_two two)
compare_versions-InInt_example =
    compare_versions-InInt one_two two (dotted-IsBounded (codes "1.2") one_two one_two_parsed)
      (dotted-IsBounded (codes "2") two two_parsed)
