-- ===== src/Repo/Specification/Tests.antt =====
-- Runs of internal/repo/specification.go on one package.
use grpm.Base.{◌≡◌, refl, true, false, none, some, Text, codes, text_eq, has_prefix}
use grpm.Base.Fields.{to_lower}
use grpm.Config.Atom.{cut}
use grpm.Pkg.Package.{Package, new_package}
use grpm.Pkg.VersionConstraint.{Regexes, satisfies}
use grpm.Repo.Specification.{
  and_specification, or_specification, not_specification, name_specification, slot_specification,
  category_specification, name_pattern_specification, version_specification, no_specs, spec_then,
  contains_at, contains_folded, is_satisfied_by,
}

abbrev openssl : Package Text
openssl = new_package (codes "dev-libs/openssl") (codes "3.0") (codes "0/3")

module _ (r : Regexes) where
  by_pattern :
      is_satisfied_by r openssl (
        and_specification (
          spec_then (name_pattern_specification (codes "SSL")) (
            spec_then (category_specification (codes "dev-libs")) (
              spec_then
                (slot_specification (codes "0"))
                (spec_then (version_specification none) no_specs)))))
      ≡ some true
  unfolding is_satisfied_by contains_at contains_folded to_lower text_eq has_prefix cut satisfies
      new_package
  by_pattern = refl

  by_other :
      is_satisfied_by r openssl (
        or_specification (
          spec_then (name_specification (codes "openssl")) (
            spec_then
              (not_specification (category_specification (codes "dev-libs")))
              (spec_then (name_pattern_specification (codes "openssl-")) no_specs))))
      ≡ some false
  unfolding is_satisfied_by contains_at contains_folded to_lower text_eq has_prefix cut new_package
  by_other = refl
