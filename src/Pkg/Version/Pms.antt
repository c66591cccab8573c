-- ===== src/Pkg/Version/Pms.antt =====
-- Where `compareVersions` parts from the comparison of docs/pms/chapter3-names-versions.md.
use grpm.Base.{◌≡◌, ◌≢◌, refl, true, List, [], ◌∷◌, ◌++◌, arith, Text, All}
use grpm.Base.Int.{ℤ, pos}
use grpm.Base.Order.{Ordering, sign, flip}
use grpm.Base.Padded.{padded, padded-IsComparison}
use grpm.Pkg.Version.{
  Version, VersionComponent, no_component, compare_versions, compare_to, is_less_than,
}
use grpm.Pkg.Version.Component.{IsComponent, components-IsComparison, no_component-IsComponent}
use grpm.Pkg.Version.Sign.{
  IsParsed, sign-compare_versions, version-IsComparison, version_order, components_sign,
  letter_order,
}
use grpm.Pkg.Version.Total.{lt_of_order}

self_eq : (x : Ordering) → x ≡ flip x → x ≡ Ordering.eq
self_eq x e = ground arith

abbrev lists_sign : List VersionComponent → List VersionComponent → Ordering
lists_sign = padded IsComponent components_sign no_component

lists_self : (l : List VersionComponent) → All IsComponent l → lists_sign l l ≡ Ordering.eq
lists_self l p = self_eq (lists_sign l l) (
    (padded-IsComparison IsComponent components_sign no_component components-IsComparison
        no_component-IsComponent).flips
      l l p p)

letter_lt : (l m : Text) → l ≢ [] → m ≡ [] → letter_order l m ≡ Ordering.lt
letter_lt [] m h e = absurd (h refl)
letter_lt (c ∷ l) [] h e = refl
letter_lt (c ∷ l) (d ∷ m) h e = cc

-- Adding a letter to a version without one makes it a smaller version (1.0a < 1.0). Algorithm 3.4
-- of the document compares the missing letter as the empty string, which makes it a greater one.
pub letter_before_none :
    (v : Version) (l : Text)
    → IsParsed v
    → v.letter_suffix ≡ []
    → l ≢ []
    → is_less_than (record v { letter_suffix = l }) v ≡ true
letter_before_none v l p none h = rw (
  lt_of_order (record v { letter_suffix = l }) v,
  sign-compare_versions (record v { letter_suffix = l }) v,
  lists_self v.components p.numeric,
  letter_lt l v.letter_suffix h none,
)

lists_trailing_zero :
    (l : List VersionComponent)
    → All IsComponent l
    → lists_sign l (l ++ no_component ∷ []) ≡ Ordering.eq
lists_trailing_zero [] p = rw (
    self_eq _ (
      components-IsComparison.flips no_component no_component no_component-IsComponent
        no_component-IsComponent))
lists_trailing_zero (c ∷ l) p =
    rw (self_eq _ (components-IsComparison.flips c c p.0 p.0), lists_trailing_zero l p.1)

zero_of_sign : (a : ℤ) → sign a ≡ Ordering.eq → a ≡ pos 0
zero_of_sign a h = ground arith

-- Comparing a parsed version with the same version and one more component 0 gives 0 (1.0 equals
-- 1.0.0). Algorithm 3.2 of the document makes the one with more components the greater.
pub trailing_zero_equal :
    (v : Version)
    → IsParsed v
    → compare_to v (record v { components = v.components ++ no_component ∷ [] }) ≡ pos 0
unfolding compare_to
trailing_zero_equal v p =
    let w = record v { components = v.components ++ no_component ∷ [] } in
    zero_of_sign (compare_versions v w) (
      rw (sign-compare_versions v w) (
        rw (lists_trailing_zero v.components p.numeric) (
          rw (lists_self v.components p.numeric) at
            (self_eq (version_order v v) (version-IsComparison.flips v v p p)))))
