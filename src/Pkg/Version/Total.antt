-- ===== src/Pkg/Version/Total.antt =====
-- About `CompareTo` of internal/pkg/version.go and its tests as an order of parsed versions.
use grpm.Base.{◌≡◌, ◌≢◌, ap, Bool, true, false, not, ◌||◌, arith}
use grpm.Base.Int.{ℤ, pos, ltb_ℤ}
use grpm.Base.Order.{Ordering, sign, flip, Composes}
use grpm.Pkg.Version.{
  Version, compare_versions, is_less_than, is_greater_than, is_less_than_or_equal,
  is_greater_than_or_equal,
}
use grpm.Pkg.Version.Sign.{IsParsed, sign-compare_versions, version-IsComparison}

-- The tests read the sign.
abbrev is_lt : Ordering → Bool
is_lt Ordering.lt = true
is_lt _ = false

abbrev is_gt : Ordering → Bool
is_gt Ordering.gt = true
is_gt _ = false

sign_lt : (a : ℤ) → ltb_ℤ a (pos 0) ≡ is_lt (sign a)
sign_lt a = ground arith

sign_gt : (a : ℤ) → ltb_ℤ (pos 0) a ≡ is_gt (sign a)
sign_gt a = ground arith

module _ (v w : Version) where
  pub lt_of_order : is_less_than v w ≡ is_lt (sign (compare_versions v w))
  unfolding is_less_than
  lt_of_order = sign_lt (compare_versions v w)

  gt_of_order : is_greater_than v w ≡ is_gt (sign (compare_versions v w))
  unfolding is_greater_than
  gt_of_order = sign_gt (compare_versions v w)

  le_of_order : is_less_than_or_equal v w ≡ not (is_gt (sign (compare_versions v w)))
  unfolding is_less_than_or_equal
  le_of_order = ap not (sign_gt (compare_versions v w))

  ge_of_order : is_greater_than_or_equal v w ≡ not (is_lt (sign (compare_versions v w)))
  unfolding is_greater_than_or_equal
  ge_of_order = ap not (sign_lt (compare_versions v w))

consistent_signs :
    (s x y : Ordering)
    → s ≡ flip s
    → y ≡ flip x
    → (not (is_gt s) ≡ true)
      × ((not (is_gt x) || not (is_gt y)) ≡ true)
      × (is_lt x ≡ is_gt y)
      × (is_lt x ≡ not (not (is_lt x)))
consistent_signs s x y p q = ground arith

sign_flips :
    (v w : Version)
    → IsParsed v
    → IsParsed w
    → sign (compare_versions w v) ≡ flip (sign (compare_versions v w))
sign_flips v w p q =
    rw (sign-compare_versions w v, sign-compare_versions v w) (version-IsComparison.flips v w p q)

-- The six tests of two parsed versions agree with one another: each version is at most itself, one
-- of the two is at most the other, and `less than` is `greater than` with the versions swapped and
-- the opposite of `greater than or equal`.
pub comparison_consistent :
    (v w : Version)
    → IsParsed v
    → IsParsed w
    → (is_less_than_or_equal v v ≡ true)
      × ((is_less_than_or_equal v w || is_less_than_or_equal w v) ≡ true)
      × (is_less_than v w ≡ is_greater_than w v)
      × (is_less_than v w ≡ not (is_greater_than_or_equal v w))
comparison_consistent v w p q =
    rw
      (
        le_of_order v v,
        le_of_order v w,
        le_of_order w v,
        lt_of_order v w,
        gt_of_order w v,
        ge_of_order v w,
      )
      (consistent_signs _ _ _ (sign_flips v v p p) (sign_flips v w p q))

sign-Composes :
    (u v w : Version)
    → IsParsed u
    → IsParsed v
    → IsParsed w
    → Composes
        (sign (compare_versions u v))
        (sign (compare_versions v w))
        (sign (compare_versions u w))
sign-Composes u v w p q r =
    rw (sign-compare_versions u v, sign-compare_versions v w, sign-compare_versions u w)
      (version-IsComparison.composes u v w p q r)

at_most : (x : Ordering) → not (is_gt x) ≡ true → x ≢ Ordering.gt
at_most x h e = cc

then_at_most :
    (x y z : Ordering)
    → Composes x y z
    → not (is_gt x) ≡ true
    → not (is_gt y) ≡ true
    → not (is_gt z) ≡ true
then_at_most x y z c h k = let e = c (at_most x h) (at_most y k) in ground (arith, e)

-- The test for less than or equal is transitive on parsed versions.
pub less_than_or_equal_trans :
    (u v w : Version)
    → IsParsed u
    → IsParsed v
    → IsParsed w
    → is_less_than_or_equal u v ≡ true
    → is_less_than_or_equal v w ≡ true
    → is_less_than_or_equal u w ≡ true
less_than_or_equal_trans u v w p q r h k = rw (le_of_order u w) (
    then_at_most (sign (compare_versions u v)) (sign (compare_versions v w))
      (sign (compare_versions u w)) (sign-Composes u v w p q r) (rw (le_of_order u v) at h)
      (rw (le_of_order v w) at k))
