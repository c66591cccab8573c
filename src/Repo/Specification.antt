-- ===== src/Repo/Specification.antt =====
-- internal/repo/specification.go: which packages a query asks for. The implementations of the interface
-- are the constructors of a data type; `none` is a panic of a version comparison.
mod Tests
use grpm.Base.{
  ℕ, Bool, true, false, not, ◌||◌, Option, none, some, List, [], ◌∷◌, if◌then◌else◌, Text, codes,
  text_eq, has_prefix, length, ltb,
}
use grpm.Base.Fields.{to_lower}
use grpm.Config.Atom.{cut}
use grpm.Pkg.Package.{Package}
use grpm.Pkg.VersionConstraint.{VersionConstraint, Regexes, satisfies}

mutual
  pub data Specification : Type 0 where
    and_specification or_specification : Specifications → Specification
    not_specification : Specification → Specification
    name_specification slot_specification category_specification : Text → Specification
    name_pattern_specification : Text → Specification
    version_specification : Option VersionConstraint → Specification

  pub data Specifications : Type 0 where
    no_specs : Specifications
    spec_then : Specification → Specifications → Specifications

-- The loop of `contains`: `substr` at some place of the text.
unfoldable pub contains_at : Text → Text → Bool
unfolding has_prefix
contains_at substr [] = has_prefix [] substr
contains_at substr (c ∷ s) =
    let later = contains_at substr s in if has_prefix (c ∷ s) substr then true else later

unfoldable pub contains_folded : Text → Text → Bool
unfolding contains_at to_lower
contains_folded s substr =
    if ltb (length s) (length substr) then false else contains_at (to_lower substr) (to_lower s)

abbrev negated : Option Bool → Option Bool
negated none = none
negated (some b) = some (not b)

-- `rest` if the first specification does not decide, as it does with the value `decides`.
abbrev or_rest : Bool → Option Bool → Option Bool → Option Bool
or_rest decides none rest = none
or_rest true (some true) rest = some true
or_rest true (some false) rest = rest
or_rest false (some true) rest = rest
or_rest false (some false) rest = some false

abbrev is_category : Text → Option (Text × Text) → Bool
is_category category none = false
is_category category (some (before, after)) = text_eq before category

module _ {Atom : Type 0} (r : Regexes) (p : Package Atom) where
  unfoldable mutual
    unfolding satisfies text_eq contains_folded cut

    pub is_satisfied_by : Specification → Option Bool
    is_satisfied_by (and_specification specs) = all_satisfied specs
    is_satisfied_by (or_specification specs) = some_satisfied specs
    is_satisfied_by (not_specification spec) = negated (is_satisfied_by spec)
    is_satisfied_by (name_specification name) = some (text_eq p.name name)
    is_satisfied_by (slot_specification name) = some (text_eq p.slot.name name)
    is_satisfied_by (category_specification category) =
        some (is_category category (cut (codes "/") p.name))
    is_satisfied_by (name_pattern_specification pattern) = some (contains_folded p.name pattern)
    is_satisfied_by (version_specification constraint) = satisfies r constraint p.version

    -- The loop of `AndSpecification`.
    pub all_satisfied : Specifications → Option Bool
    all_satisfied no_specs = some true
    all_satisfied (spec_then spec specs) =
        or_rest false (is_satisfied_by spec) (all_satisfied specs)

    -- The loop of `OrSpecification`.
    pub some_satisfied : Specifications → Option Bool
    some_satisfied no_specs = some false
    some_satisfied (spec_then spec specs) =
        or_rest true (is_satisfied_by spec) (some_satisfied specs)
