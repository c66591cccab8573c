-- ===== src/Pkg/Package/Tests.antt =====
-- Runs of internal/pkg/package.go and of the USE dependencies of internal/pkg/constraint.go.
use grpm.Base.{all, ◌≡◌, ◌↔◌, refl, true, false, some, [], ◌∷◌, Text, codes, text_eq, has_prefix}
use grpm.Pkg.Use.{Flags}
use grpm.Pkg.Constraint.{Constraint, new_simple_constraint, package_satisfies_use_deps}
use grpm.Pkg.Constraint.UseDeps.{Provides, package_satisfies_use_deps_lem}
use grpm.Pkg.Package.{Package, new_slot, print_slot, parse_slot, new_package, is_keyword_accepted}
use grpm.Pkg.Package.Slots.{parse_slot-print_slot}
use grpm.Pkg.Package.Keywords.{is_stable, is_unstable, is_keyword_accepted-stable}

abbrev python : Package Text
python = record {
  name = codes "dev-lang/python";
  version = codes "3.12.1";
  slot = record { name = codes "3.12"; subslot = []; subslot_rebuild = false };
  use_flags = [];
  keywords = codes "~amd64" ∷ codes "-arm" ∷ [];
  deps = [];
  provides = [];
  blockers = [];
}

abbrev zlib : Package Text
zlib = new_package (codes "sys-libs/zlib") (codes "1.3") (codes "0/1")

testing_accepted : is_keyword_accepted python (codes "~amd64" ∷ []) ≡ true
unfolding is_keyword_accepted text_eq has_prefix
testing_accepted = refl

abbrev dep : Constraint
dep = record (new_simple_constraint (codes "dev-libs/openssl")) {
  use_require = codes "ssl" ∷ [];
  use_equal = codes "test" ∷ [];
  use_conditional_if = codes "doc" ∷ [];
}

abbrev provider : Flags
provider = (codes "ssl", true) ∷ (codes "test", false) ∷ (codes "doc", true) ∷ []

abbrev dependent : Flags
dependent = (codes "doc", true) ∷ []

provider_accepted : package_satisfies_use_deps dep provider (some dependent) ≡ true
unfolding package_satisfies_use_deps text_eq new_simple_constraint
provider_accepted = refl

stable : all is_stable (codes "amd64" ∷ []) ≡ true
unfolding has_prefix
stable = refl

unstable : all is_unstable python.keywords ≡ true
unfolding has_prefix
unstable = refl

not_rebuild : text_eq (codes "0") (codes "=") ≡ false
unfolding text_eq
not_rebuild = refl

is_keyword_accepted-stable_example : is_keyword_accepted python (codes "amd64" ∷ []) ≡ false
is_keyword_accepted-stable_example =
    is_keyword_accepted-stable python (codes "amd64" ∷ []) stable unstable

parse_slot-print_slot_example :
    parse_slot (print_slot (new_slot (codes "0") (codes "1.2")))
    ≡ new_slot (codes "0") (codes "1.2")
parse_slot-print_slot_example =
    parse_slot-print_slot (codes "0") (codes "1.2") refl refl not_rebuild

-- A flag that the provider does not declare, without a default: `[-static]` is satisfied.
undeclared_blocked :
    package_satisfies_use_deps
      (record (new_simple_constraint (codes "dev-libs/openssl")) {
        use_block = codes "static" ∷ [];
      })
      provider
      (some dependent)
    ≡ true
unfolding package_satisfies_use_deps text_eq new_simple_constraint
undeclared_blocked = refl

package_satisfies_use_deps_lem_example :
    (package_satisfies_use_deps dep provider (some dependent) ≡ true)
    ↔ Provides dep provider dependent
package_satisfies_use_deps_lem_example = package_satisfies_use_deps_lem dep provider dependent
