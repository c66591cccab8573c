-- ===== src/Pkg/Version.antt =====
-- internal/pkg/version.go: versions, their parsing and their comparison. The regular expressions of
-- the coregex package are parameters of the parser; the proofs are in the modules below.
pub mod Component
pub mod Sign
pub mod Total
pub mod Pms
pub mod Parse
mod Tests
use Prim.Native.Nat.{compare}
use grpm.Base.{
  ℕ, ◌+◌, ◌-◌, ◌*◌, ◌^◌, Bool, true, false, not, ◌&&◌, ◌||◌, Option, none, some, List, [], ◌∷◌,
  ◌++◌, length, take, drop, ltb, leb, ◌==◌, if◌then◌else◌, Text, codes, text_eq, text_compare,
  is_digit,
}
use grpm.Base.Int.{ℤ, pos, negsuc, sub_ℕ, ◌-ℤ◌, is_zero_ℤ, ltb_ℤ}
use grpm.Base.Order.{Ordering}

pub record VersionComponent : Type 0 where
  pub value : ℕ
  pub has_leading_zero : Bool
  pub original : Text

pub record VersionSuffix : Type 0 where
  pub kind : Text  -- the field `Type`
  pub number : ℕ

pub record Version : Type 0 where
  pub raw : Text
  pub components : List VersionComponent
  pub letter_suffix : Text
  pub suffixes : List VersionSuffix
  pub revision : ℕ

-- The map `suffixPriority`; a key that is not in it reads as 0.
unfoldable pub suffix_priority : Text → ℤ
suffix_priority t =
    if text_eq t (codes "alpha")
    then negsuc 3
    else if text_eq t (codes "beta")
    then negsuc 2
    else if text_eq t (codes "pre")
    then negsuc 1
    else if text_eq t (codes "rc")
    then negsuc 0
    else if text_eq t (codes "p")
    then pos 1
    else pos 0

abbrev pub is_empty {ℓ} : {A : Type ℓ} → List A → Bool
is_empty [] = true
is_empty (x ∷ xs) = false

-- `strings.TrimRight(s, "0")`.
unfoldable pub trim_zeros : Text → Text
trim_zeros [] = []
trim_zeros (c ∷ s) = let r = trim_zeros s in if c == b'0' && is_empty r then [] else c ∷ r

-- `strings.Compare`.
abbrev pub int_of_ordering : Ordering → ℤ
int_of_ordering Ordering.lt = negsuc 0
int_of_ordering Ordering.eq = pos 0
int_of_ordering Ordering.gt = pos 1

unfoldable pub strings_compare : Text → Text → ℤ
strings_compare s t = int_of_ordering (text_compare s t)

abbrev pub or_zero : Text → Text
or_zero s = if is_empty s then codes "0" else s

unfoldable pub compare_with_leading_zeros : Text → Text → ℤ
unfolding trim_zeros strings_compare
compare_with_leading_zeros s1 s2 =
    strings_compare (or_zero (trim_zeros s1)) (or_zero (trim_zeros s2))

-- `int` differences of values that are not negative stay in the range of `int`.
unfoldable pub compare_components : VersionComponent → VersionComponent → ℤ
unfolding compare_with_leading_zeros
compare_components c1 c2 =
    if c1.has_leading_zero || c2.has_leading_zero
    then compare_with_leading_zeros c1.original c2.original
    else sub_ℕ c1.value c2.value

unfoldable pub compare_letter_suffix : Text → Text → ℤ
unfolding strings_compare
compare_letter_suffix l1 l2 =
    if is_empty l1 && is_empty l2
    then pos 0
    else if is_empty l1 && not (is_empty l2)
    then pos 1
    else if not (is_empty l1) && is_empty l2
    then negsuc 0
    else strings_compare l1 l2

-- A missing component counts as 0.
abbrev pub no_component : VersionComponent
no_component = record { value = 0; has_leading_zero = false; original = codes "0" }

abbrev pub or_else : ℤ → ℤ → ℤ
or_else cmp rest = if is_zero_ℤ cmp then rest else cmp

-- The loop of `compareVersions` over the numeric components, up to the longer of the two lists.
unfoldable pub compare_numeric : List VersionComponent → List VersionComponent → ℤ
unfolding compare_components
compare_numeric [] [] = pos 0
compare_numeric (c1 ∷ l1) [] = or_else (compare_components c1 no_component) (compare_numeric l1 [])
compare_numeric [] (c2 ∷ l2) = or_else (compare_components no_component c2) (compare_numeric [] l2)
compare_numeric (c1 ∷ l1) (c2 ∷ l2) = or_else (compare_components c1 c2) (compare_numeric l1 l2)

abbrev pub no_suffix : VersionSuffix
no_suffix = record { kind = []; number = 0 }

-- The body of the loop of `compareSuffixes`; 0 goes on with the loop.
unfoldable pub compare_suffix : VersionSuffix → VersionSuffix → ℤ
unfolding suffix_priority
compare_suffix suf1 suf2 =
    let p = suffix_priority suf1.kind -ℤ suffix_priority suf2.kind in
    if is_zero_ℤ p then sub_ℕ suf1.number suf2.number else p

unfoldable pub compare_suffixes : List VersionSuffix → List VersionSuffix → ℤ
unfolding compare_suffix
compare_suffixes [] [] = pos 0
compare_suffixes (s1 ∷ l1) [] = or_else (compare_suffix s1 no_suffix) (compare_suffixes l1 [])
compare_suffixes [] (s2 ∷ l2) = or_else (compare_suffix no_suffix s2) (compare_suffixes [] l2)
compare_suffixes (s1 ∷ l1) (s2 ∷ l2) = or_else (compare_suffix s1 s2) (compare_suffixes l1 l2)

unfoldable pub compare_versions : Version → Version → ℤ
unfolding compare_numeric compare_letter_suffix compare_suffixes
compare_versions v1 v2 = or_else (compare_numeric v1.components v2.components) (
    or_else (compare_letter_suffix v1.letter_suffix v2.letter_suffix)
      (or_else (compare_suffixes v1.suffixes v2.suffixes) (sub_ℕ v1.revision v2.revision)))

-- `CompareTo` and the four tests; `Equals` compares the texts.
unfoldable pub compare_to : Version → Version → ℤ
unfolding compare_versions
compare_to v other = compare_versions v other

unfoldable pub is_greater_than : Version → Version → Bool
unfolding compare_to
is_greater_than v other = ltb_ℤ (pos 0) (compare_to v other)

unfoldable pub is_less_than : Version → Version → Bool
unfolding compare_to
is_less_than v other = ltb_ℤ (compare_to v other) (pos 0)

unfoldable pub is_greater_than_or_equal : Version → Version → Bool
unfolding compare_to
is_greater_than_or_equal v other = not (ltb_ℤ (compare_to v other) (pos 0))

unfoldable pub is_less_than_or_equal : Version → Version → Bool
unfolding compare_to
is_less_than_or_equal v other = not (ltb_ℤ (pos 0) (compare_to v other))

unfoldable pub equals : Version → Version → Bool
equals v other = text_eq v.raw other.raw
