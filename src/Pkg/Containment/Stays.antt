-- ===== src/Pkg/Containment/Stays.antt =====
-- Names that internal/pkg/pathutil.go accepts do not lead out of the directory they are joined to.
use grpm.Base.{
  ℕ, ◌≡◌, refl, ap, sym, ◌∙◌, arith, Bool, true, false, List, [], ◌∷◌, ◌++◌, all, Text, codes,
  text_eq, has_prefix,
}
use mathlib.Core.List.{append_assoc}
use grpm.Base.Result.{ok}
use grpm.Base.Paths.{clean, join_parts}
use grpm.Pkg.Package.Slots.{is_slashless}
use grpm.Pkg.VersionConstraint.Satisfies.{has_prefix-append}
use grpm.Pkg.Containment.{
  package_char, category_char, is_valid_category, is_valid_package_name,
  validate_category_package_name, validate_path_containment, join_all, safe_join_path,
}
use grpm.Pkg.Containment.Below.{IsName, clean-names}

module _ (beyond_ascii : ℕ → Bool) where
  slashless : (s : Text) → all (category_char beyond_ascii) s ≡ true → is_slashless s ≡ true
  slashless [] h = refl
  slashless (c ∷ s) h = ground (arith, h, slashless s)

  all-category_char :
      (s : Text)
      → all (package_char beyond_ascii) s ≡ true
      → all (category_char beyond_ascii) s ≡ true
  all-category_char [] h = refl
  all-category_char (c ∷ s) h = ground (arith, h, all-category_char s)

  is_valid_category-IsName : (s : Text) → is_valid_category beyond_ascii s ≡ true → IsName s
  unfolding is_valid_category text_eq
  is_valid_category-IsName [] h = absurd (ground (arith, h))
  is_valid_category-IsName (c ∷ s) h = record {
    some_text = refl;
    no_dot = ground (arith, h);
    no_dots = ground (arith, h);
    slashless = ground (arith, h, slashless s);
  }

  is_valid_package_name-category :
      (s : Text)
      → is_valid_package_name beyond_ascii s ≡ true
      → is_valid_category beyond_ascii s ≡ true
  unfolding is_valid_category is_valid_package_name
  is_valid_package_name-category [] h = h
  is_valid_package_name-category (c ∷ s) h = ground (arith, h, all-category_char s)

  validated :
      (category pkg_name : Text)
      → validate_category_package_name beyond_ascii category pkg_name ≡ ok true
      → (is_valid_category beyond_ascii category ≡ true)
        × (is_valid_package_name beyond_ascii pkg_name ≡ true)
  unfolding validate_category_package_name
  validated category pkg_name h = ground (arith, h)

contained :
    (base full : Text)
    → has_prefix (clean full) (clean base ++ codes "/") ≡ true
    → validate_path_containment base full ≡ ok true
unfolding validate_path_containment
contained base full h = rw (validate_path_containment, h) refl

joined :
    (base : Text) (elems : List Text)
    → validate_path_containment base (join_all (base ∷ elems)) ≡ ok true
    → safe_join_path base elems ≡ ok (join_all (base ∷ elems))
unfolding safe_join_path
joined base elems h = rw (safe_join_path, h) refl

join_all-names :
    (t c p : Text)
    → join_all ((b'/' ∷ t) ∷ c ∷ p ∷ [])
      ≡ clean ((b'/' ∷ t) ++ (codes "/" ++ (c ++ (codes "/" ++ p))))
unfolding join_all join_parts
join_all-names t c p = refl

module _ (beyond_ascii : ℕ → Bool) (t category pkg_name : Text) where
  -- Where the base is a clean rooted path other than the root, and the category and the package pass
  -- ValidateCategoryPackageName, SafeJoinPath returns the base with both behind it, and
  -- ValidatePathContainment accepts this path.
  pub safe_join_path-names :
      clean (b'/' ∷ t) ≡ b'/' ∷ t
      → text_eq (b'/' ∷ t) (codes "/") ≡ false
      → validate_category_package_name beyond_ascii category pkg_name ≡ ok true
      → (safe_join_path (b'/' ∷ t) (category ∷ pkg_name ∷ [])
          ≡ ok ((b'/' ∷ t) ++ (codes "/" ++ (category ++ (codes "/" ++ pkg_name)))))
        × (validate_path_containment
              (b'/' ∷ t)
              ((b'/' ∷ t) ++ (codes "/" ++ (category ++ (codes "/" ++ pkg_name))))
            ≡ ok true)
  safe_join_path-names e root v =
      let base : Text = b'/' ∷ t in
      let tail : Text = category ++ (codes "/" ++ pkg_name) in
      let full : Text = base ++ (codes "/" ++ tail) in
      let (vc, vp) = validated beyond_ascii category pkg_name v in
      let nc = is_valid_category-IsName beyond_ascii category vc in
      let np =
        is_valid_category-IsName beyond_ascii pkg_name
          (is_valid_package_name-category beyond_ascii pkg_name vp) in
      let cleaned : clean full ≡ full =
        clean-names t category pkg_name nc np (ap (λ s. text_eq s (codes "/")) e ∙ root)
        ∙ ap (λ s. s ++ (codes "/" ++ tail)) e in
      let below : has_prefix (clean full) (clean base ++ codes "/") ≡ true =
        ap (λ s. has_prefix s (clean base ++ codes "/"))
          (cleaned ∙ sym (append_assoc base (codes "/") tail))
        ∙ ap (λ s. has_prefix ((base ++ codes "/") ++ tail) (s ++ codes "/")) e
        ∙ has_prefix-append (base ++ codes "/") tail in
      let all_joined : join_all (base ∷ category ∷ pkg_name ∷ []) ≡ full =
        join_all-names t category pkg_name ∙ cleaned in
      let accepted : validate_path_containment base full ≡ ok true = contained base full below in
      (
        joined base (category ∷ pkg_name ∷ [])
              (ap (λ s. validate_path_containment base s) all_joined ∙ accepted)
            ∙ ap ok all_joined,
        accepted,
      )
