-- ===== src/Pkg/VersionConstraint/Tests.antt =====
-- Runs of the version constraints of internal/pkg/constraint.go.
use grpm.Base.{
  ℕ, ◌≡◌, ◌≢◌, refl, Bool, true, false, none, some, [], ◌∷◌, Text, codes, text_eq, trim_space,
  has_prefix, is_digit, split_on,
}
use grpm.Base.Result.{ok}
use grpm.Base.Decimal.{atoi}
use grpm.Pkg.Version.{Version}
use grpm.Pkg.Version.Parse.{
  parse_version, revision_of, suffixes_of, parse_main, parse_components, parse_component,
}
use grpm.Pkg.VersionConstraint.{
  op_greater, op_less_equal, op_equal_glob, constraint, Regexes, strip_revision, satisfies,
  satisfies_glob, print, parse_version_constraint,
}
use grpm.Pkg.VersionConstraint.Satisfies.{satisfies-ne-none}
use grpm.Pkg.VersionConstraint.Print.{parse_version_constraint-print}

abbrev begins_with_digit : Text → Bool
begins_with_digit [] = false
begins_with_digit (c ∷ s) = is_digit c

-- The regular expressions on texts of digits and dots.
abbrev regexes : Regexes
regexes = record {
  versions = record {
    digit_match = begins_with_digit;
    revision_match = λ s. none;
    suffix_starts = λ s. [];
    suffix_matches = λ s. [];
    main_match = λ s. some (s, []);
  };
  legacy_find_all = λ s. split_on b'.' s;
}

abbrev single : ℕ → Text → Version
single n s = record {
  raw = s;
  components = record { value = n; has_leading_zero = false; original = s } ∷ [];
  letter_suffix = [];
  suffixes = [];
  revision = 0;
}

one_parsed : parse_version regexes.versions (codes "1") ≡ ok (single 1 (codes "1"))
unfolding parse_version atoi text_eq revision_of suffixes_of parse_main parse_components split_on
    parse_component
one_parsed = refl

five_parsed : parse_version regexes.versions (codes "5") ≡ ok (single 5 (codes "5"))
unfolding parse_version atoi text_eq revision_of suffixes_of parse_main parse_components split_on
    parse_component
five_parsed = refl

nine_parsed : parse_version regexes.versions (codes "9") ≡ ok (single 9 (codes "9"))
unfolding parse_version atoi text_eq revision_of suffixes_of parse_main parse_components split_on
    parse_component
nine_parsed = refl

one_le_five : satisfies regexes (constraint op_less_equal (codes "5")) (codes "1") ≡ some true
unfolding satisfies parse_version atoi text_eq revision_of suffixes_of parse_main parse_components
    split_on parse_component
one_le_five = refl

five_le_nine : satisfies regexes (constraint op_less_equal (codes "9")) (codes "5") ≡ some true
unfolding satisfies parse_version atoi text_eq revision_of suffixes_of parse_main parse_components
    split_on parse_component
five_le_nine = refl

glob_at_component : satisfies_glob (codes "5.44.2") (codes "5.44") ≡ some true
unfolding satisfies_glob text_eq has_prefix
glob_at_component = refl

glob_inside_component : satisfies_glob (codes "5.440") (codes "5.44") ≡ some false
unfolding satisfies_glob text_eq has_prefix
glob_inside_component = refl

satisfies-ne-none_example :
    satisfies regexes (constraint op_equal_glob (codes "5.44")) (codes "5.44.2") ≢ none
satisfies-ne-none_example =
    satisfies-ne-none regexes (constraint op_equal_glob (codes "5.44")) (codes "5.44.2")

release_candidate : strip_revision (codes "0.231-rc1") ≡ codes "0.231-rc1"
unfolding strip_revision has_prefix
release_candidate = refl

trimmed_already : trim_space (codes "1.2") ≡ codes "1.2"
unfolding trim_space
trimmed_already = refl

parse_version_constraint-print_example :
    parse_version_constraint (print (constraint op_greater (codes "1.2")))
    ≡ constraint op_greater (codes "1.2")
parse_version_constraint-print_example =
    parse_version_constraint-print op_greater b'1' (codes ".2") refl refl trimmed_already
