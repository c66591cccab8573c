-- ===== src/Pkg/Constraint.antt =====
-- internal/pkg/constraint.go: constraints on packages, and their USE dependencies.
pub mod UseDeps
use grpm.Base.{
  ℕ, ◌+◌, ◌-◌, Bool, true, false, not, ◌&&◌, ◌||◌, Option, none, some, List, [], ◌∷◌, ◌++◌, length,
  take, drop, ltb, ◌==◌, if◌then◌else◌, Text, codes, text_eq, text_compare, has_prefix, all,
  is_digit, get_elem?, trim_space,
}
use grpm.Base.Order.{Ordering}
use grpm.Base.Int.{ℤ, pos, negsuc, sub_ℕ, ltb_ℤ}
use grpm.Base.Assoc.{lookup}
use grpm.Base.Result.{Result, ok, err}
use grpm.Base.Decimal.{atoi}
use grpm.Pkg.Version.{Version, compare_versions, is_empty, strings_compare}
use grpm.Pkg.Version.Parse.{VersionRegexes, VersionError, parse_version}
use grpm.Pkg.Use.{Flags, flag_of}
use grpm.Pkg.VersionConstraint.{VersionConstraint}

pub data ConstraintType : Type 0 where
  by_version by_slot by_use_flag : ConstraintType

pub data DepType : Type 0 where
  runtime build build_host install post_merge : DepType

pub record Constraint : Type 0 where
  pub kind : ConstraintType  -- the field `Type`
  pub name : Text
  pub version : Option VersionConstraint
  pub slot : Text
  pub flag : Text
  pub required : Bool
  pub condition : Text
  pub conditions : List Text
  pub or_group_id : ℕ
  pub dep_type : DepType
  pub use_require : List Text
  pub use_block : List Text
  pub use_default : Flags
  pub use_equal : List Text
  pub use_equal_inverse : List Text
  pub use_conditional_if : List Text
  pub use_conditional_unless : List Text

unfoldable pub new_simple_constraint : Text → Constraint
new_simple_constraint name = record {
  kind = by_version;
  name = name;
  version = none;
  slot = [];
  flag = [];
  required = false;
  condition = [];
  conditions = [];
  or_group_id = 0;
  dep_type = runtime;
  use_require = [];
  use_block = [];
  use_default = [];
  use_equal = [];
  use_equal_inverse = [];
  use_conditional_if = [];
  use_conditional_unless = [];
}

unfoldable pub has_use_deps : Constraint → Bool
has_use_deps c =
    not (is_empty c.use_require)
    || not (is_empty c.use_block)
    || not (is_empty c.use_equal)
    || not (is_empty c.use_equal_inverse)
    || not (is_empty c.use_conditional_if)
    || not (is_empty c.use_conditional_unless)

-- `flagEnabled`: of a flag that the provider does not declare, the default.
unfoldable pub flag_enabled : Constraint → Text → Flags → Bool
unfolding lookup flag_of
flag_enabled c flag provider = elim (lookup flag provider) [
  | some enabled ↦ enabled
  | none ↦ flag_of c.use_default flag
]

-- `a != b` on Booleans.
abbrev pub differ : Bool → Bool → Bool
differ true b = not b
differ false b = b

-- One loop of `PackageSatisfiesUseDeps`: false at the first flag that fails the test.
unfoldable pub no_flag_fails : (Text → Bool) → List Text → Bool
no_flag_fails fails [] = true
no_flag_fails fails (flag ∷ flags) =
    let rest = no_flag_fails fails flags in if fails flag then false else rest

-- A test of the dependent's flags, passed over where the dependent is not given.
abbrev pub fails_for : Option Flags → (Flags → Bool) → Bool
fails_for none test = false
fails_for (some dependent) test = test dependent

unfoldable pub package_satisfies_use_deps : Constraint → Flags → Option Flags → Bool
unfolding flag_enabled no_flag_fails flag_of
package_satisfies_use_deps c provider dependent =
    no_flag_fails (λ flag. not (flag_enabled c flag provider)) c.use_require
    && no_flag_fails (λ flag. flag_enabled c flag provider) c.use_block
    && no_flag_fails
        (λ flag. fails_for dependent (λ d. differ (flag_enabled c flag provider) (flag_of d flag)))
        c.use_equal
    && no_flag_fails
        (λ flag.
          fails_for dependent (λ d. not (differ (flag_enabled c flag provider) (flag_of d flag))))
        c.use_equal_inverse
    && no_flag_fails
        (λ flag. fails_for dependent (λ d. flag_of d flag && not (flag_enabled c flag provider)))
        c.use_conditional_if
    && no_flag_fails
        (λ flag. fails_for dependent (λ d. not (flag_of d flag) && flag_enabled c flag provider))
        c.use_conditional_unless
