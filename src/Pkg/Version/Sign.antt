-- ===== src/Pkg/Version/Sign.antt =====
-- About the sign of `compareVersions` of internal/pkg/version.go, and the lexicographic order.
use Prim.Native.Nat.{compare}
use grpm.Base.{ℕ, ◌≡◌, refl, List, [], ◌∷◌, arith, if◌then◌else◌, Text, text_compare, All}
use grpm.Base.Int.{ℤ, pos, negsuc, sub_ℕ, ◌-ℤ◌, is_zero_ℤ}
use grpm.Base.Order.{
  Ordering, IsComparison, IsComparison-then, IsComparison-on, IsComparison-pull, nat_compare,
  text-IsComparison, sign-IsComparison, sign, then_by, sign-sub_ℕ,
}
use grpm.Base.Padded.{padded, padded-IsComparison}
use grpm.Pkg.Version.{
  Version, VersionComponent, VersionSuffix, compare_components, no_component, or_else,
  compare_numeric, compare_letter_suffix, suffix_priority, compare_suffix, no_suffix,
  compare_suffixes, compare_versions, is_empty,
}
use grpm.Pkg.Version.Component.{IsComponent, components-IsComparison, no_component-IsComponent}

-- What the parser makes: its numeric components are runs of digits.
pub record IsParsed (v : Version) : Type 0 where
  pub numeric : All IsComponent v.components

-- `if cmp != 0 { return cmp }; rest` has the sign of the lexicographic combination.
sign-or_else : (a b : ℤ) → sign (or_else a b) ≡ then_by (sign a) (sign b)
sign-or_else (pos n) b = ground arith
sign-or_else (negsuc n) b = ground arith

abbrev pub components_sign : VersionComponent → VersionComponent → Ordering
components_sign a b = sign (compare_components a b)

sign-compare_numeric :
    (l1 l2 : List VersionComponent)
    → sign (compare_numeric l1 l2) ≡ padded IsComponent components_sign no_component l1 l2
unfolding compare_numeric
sign-compare_numeric [] [] = refl
sign-compare_numeric (c1 ∷ l1) [] = rw (sign-or_else, sign-compare_numeric l1 [])
sign-compare_numeric [] (c2 ∷ l2) = rw (sign-or_else, sign-compare_numeric [] l2)
sign-compare_numeric (c1 ∷ l1) (c2 ∷ l2) = rw (sign-or_else, sign-compare_numeric l1 l2)

abbrev pub suffix_order : VersionSuffix → VersionSuffix → Ordering
suffix_order s1 s2 =
    then_by (sign (suffix_priority s1.kind -ℤ suffix_priority s2.kind))
      (compare s1.number s2.number)

sign-priorities :
    (p : ℤ) (a b : ℕ) → sign (if is_zero_ℤ p then sub_ℕ a b else p) ≡ then_by (sign p) (compare a b)
sign-priorities (pos n) a b = ground arith
sign-priorities (negsuc n) a b = ground arith

sign-compare_suffix : (s1 s2 : VersionSuffix) → sign (compare_suffix s1 s2) ≡ suffix_order s1 s2
unfolding compare_suffix
sign-compare_suffix s1 s2 =
    sign-priorities (suffix_priority s1.kind -ℤ suffix_priority s2.kind) s1.number s2.number

sign-compare_suffixes :
    (l1 l2 : List VersionSuffix)
    → sign (compare_suffixes l1 l2) ≡ padded (λ _. Unit {0}) suffix_order no_suffix l1 l2
unfolding compare_suffixes
sign-compare_suffixes [] [] = refl
sign-compare_suffixes (c1 ∷ l1) [] =
    rw (sign-or_else, sign-compare_suffix, sign-compare_suffixes l1 [])
sign-compare_suffixes [] (c2 ∷ l2) =
    rw (sign-or_else, sign-compare_suffix, sign-compare_suffixes [] l2)
sign-compare_suffixes (c1 ∷ l1) (c2 ∷ l2) =
    rw (sign-or_else, sign-compare_suffix, sign-compare_suffixes l1 l2)

-- The letter that is missing comes last.
abbrev pub letter_rank : Text → ℕ
letter_rank l = if is_empty l then 1 else 0

abbrev pub letter_order : Text → Text → Ordering
letter_order l1 l2 = then_by (compare (letter_rank l1) (letter_rank l2)) (text_compare l1 l2)

sign-compare_letter_suffix :
    (l1 l2 : Text) → sign (compare_letter_suffix l1 l2) ≡ letter_order l1 l2
unfolding compare_letter_suffix text_compare
sign-compare_letter_suffix [] [] = refl
sign-compare_letter_suffix [] (y ∷ l2) = refl
sign-compare_letter_suffix (x ∷ l1) [] = refl
sign-compare_letter_suffix (x ∷ l1) (y ∷ l2) = ground arith

abbrev pub version_order : Version → Version → Ordering
version_order v w =
    then_by (padded IsComponent components_sign no_component v.components w.components) (
      then_by (letter_order v.letter_suffix w.letter_suffix) (
        then_by (padded (λ _. Unit {0}) suffix_order no_suffix v.suffixes w.suffixes)
          (compare v.revision w.revision)))

pub sign-compare_versions : (v w : Version) → sign (compare_versions v w) ≡ version_order v w
unfolding compare_versions
sign-compare_versions v w = rw (
  sign-or_else, sign-compare_numeric, sign-or_else, sign-compare_letter_suffix, sign-or_else,
  sign-compare_suffixes, sign-sub_ℕ,
)

pub suffix-IsComparison : IsComparison (λ _. Unit {0}) suffix_order
suffix-IsComparison =
    IsComparison-then (λ _. Unit {0})
      (λ a b. sign (suffix_priority a.kind -ℤ suffix_priority b.kind))
      (λ a b. compare a.number b.number)
      (IsComparison-on (λ _. Unit {0}) (λ (s : VersionSuffix). suffix_priority s.kind)
        (λ p q. sign (p -ℤ q)) sign-IsComparison)
      (IsComparison-on (λ _. Unit {0}) (λ (s : VersionSuffix). s.number) compare nat_compare)

letter-IsComparison : IsComparison (λ _. Unit {0}) letter_order
letter-IsComparison =
    IsComparison-then (λ _. Unit {0}) (λ a b. compare (letter_rank a) (letter_rank b)) text_compare
      (IsComparison-on (λ _. Unit {0}) letter_rank compare nat_compare) text-IsComparison

All-Unit : {A : Type 0} (l : List A) → All (λ _. Unit {0}) l
All-Unit [] = tt
All-Unit (x ∷ l) = (tt, All-Unit l)

pub version-IsComparison : IsComparison IsParsed version_order
version-IsComparison =
    IsComparison-then IsParsed _ _
      (IsComparison-pull IsParsed (All IsComponent) (λ (v : Version). v.components)
        (padded IsComponent components_sign no_component) (λ v p. p.numeric)
        (padded-IsComparison IsComponent components_sign no_component components-IsComparison
          no_component-IsComponent))
      (IsComparison-then IsParsed _ _
        (IsComparison-on IsParsed (λ (v : Version). v.letter_suffix) letter_order
          letter-IsComparison)
        (IsComparison-then IsParsed _ _
          (IsComparison-pull IsParsed (All (λ _. Unit {0})) (λ (v : Version). v.suffixes)
            (padded (λ _. Unit {0}) suffix_order no_suffix) (λ v p. All-Unit v.suffixes)
            (padded-IsComparison (λ _. Unit {0}) suffix_order no_suffix suffix-IsComparison tt))
          (IsComparison-on IsParsed (λ (v : Version). v.revision) compare nat_compare)))
