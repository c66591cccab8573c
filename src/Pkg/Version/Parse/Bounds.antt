-- ===== src/Pkg/Version/Parse/Bounds.antt =====
-- About the range of the comparison of internal/pkg/version.go.
use grpm.Base.{ℕ, ◌^◌, ◌≤◌, ◌<◌, List, [], ◌∷◌, arith, Text, All, if◌then◌else◌}
use grpm.Base.Int.{ℤ, pos, negsuc, pos_part, neg_part, sub_ℕ, ◌-ℤ◌, is_zero_ℤ}
use grpm.Pkg.Version.{
  Version, VersionComponent, VersionSuffix, compare_components, no_component, or_else,
  compare_numeric, compare_with_leading_zeros, strings_compare, compare_letter_suffix,
  suffix_priority, compare_suffix, no_suffix, compare_suffixes, compare_versions,
}
use grpm.Pkg.Version.Parse.Sound.{Fits, IsBounded}

abbrev pub InInt : ℤ → Type 0
InInt a = (pos_part a < 2 ^ 63) × (neg_part a ≤ 2 ^ 63)

or_else-InInt : (a b : ℤ) → InInt a → InInt b → InInt (or_else a b)
or_else-InInt (pos n) b h k = ground arith
or_else-InInt (negsuc n) b h k = ground arith

sub-InInt : (a b : ℕ) → Fits a → Fits b → InInt (sub_ℕ a b)
sub-InInt a b h k = ground arith

strings-InInt : (s t : Text) → InInt (strings_compare s t)
unfolding strings_compare
strings-InInt s t = ground arith

components-InInt :
    (a b : VersionComponent) → Fits a.value → Fits b.value → InInt (compare_components a b)
unfolding compare_components compare_with_leading_zeros
components-InInt a b h k = ground (arith, sub-InInt a.value b.value h k)

numeric-InInt :
    (l1 l2 : List VersionComponent)
    → All (λ (c : VersionComponent). Fits c.value) l1
    → All (λ (c : VersionComponent). Fits c.value) l2
    → InInt (compare_numeric l1 l2)
unfolding compare_numeric
numeric-InInt [] [] h k = omega arith
numeric-InInt (a ∷ l1) [] h k =
    or_else-InInt _ _ (components-InInt a no_component h.0 (omega arith))
      (numeric-InInt l1 [] h.1 k)
numeric-InInt [] (b ∷ l2) h k =
    or_else-InInt _ _ (components-InInt no_component b (omega arith) k.0)
      (numeric-InInt [] l2 h k.1)
numeric-InInt (a ∷ l1) (b ∷ l2) h k =
    or_else-InInt _ _ (components-InInt a b h.0 k.0) (numeric-InInt l1 l2 h.1 k.1)

letter-InInt : (s t : Text) → InInt (compare_letter_suffix s t)
unfolding compare_letter_suffix
letter-InInt s t = ground arith

priority-InInt : (s t : Text) → InInt (suffix_priority s -ℤ suffix_priority t)
unfolding suffix_priority
priority-InInt s t = ground arith

suffix-InInt : (a b : VersionSuffix) → Fits a.number → Fits b.number → InInt (compare_suffix a b)
unfolding compare_suffix
suffix-InInt a b h k =
    step (suffix_priority a.kind -ℤ suffix_priority b.kind) (priority-InInt a.kind b.kind)
  where
    step : (p : ℤ) → InInt p → InInt (if is_zero_ℤ p then sub_ℕ a.number b.number else p)
    step p i = ground (arith, sub-InInt a.number b.number h k)

suffixes-InInt :
    (l1 l2 : List VersionSuffix)
    → All (λ (s : VersionSuffix). Fits s.number) l1
    → All (λ (s : VersionSuffix). Fits s.number) l2
    → InInt (compare_suffixes l1 l2)
unfolding compare_suffixes
suffixes-InInt [] [] h k = omega arith
suffixes-InInt (a ∷ l1) [] h k =
    or_else-InInt _ _ (suffix-InInt a no_suffix h.0 (omega arith)) (suffixes-InInt l1 [] h.1 k)
suffixes-InInt [] (b ∷ l2) h k =
    or_else-InInt _ _ (suffix-InInt no_suffix b (omega arith) k.0) (suffixes-InInt [] l2 h k.1)
suffixes-InInt (a ∷ l1) (b ∷ l2) h k =
    or_else-InInt _ _ (suffix-InInt a b h.0 k.0) (suffixes-InInt l1 l2 h.1 k.1)

-- The comparison of two versions whose numbers fit an `int` and are not negative, as those of
-- parsed versions are, never leaves the range of an `int`: none of its subtractions wraps.
pub compare_versions-InInt :
    (v w : Version) → IsBounded v → IsBounded w → InInt (compare_versions v w)
unfolding compare_versions
compare_versions-InInt v w h k =
    or_else-InInt _ _ (numeric-InInt v.components w.components h.values k.values) (
      or_else-InInt _ _ (letter-InInt v.letter_suffix w.letter_suffix) (
        or_else-InInt _ _ (suffixes-InInt v.suffixes w.suffixes h.numbers k.numbers)
          (sub-InInt v.revision w.revision h.revision_fits k.revision_fits)))
