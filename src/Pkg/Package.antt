-- ===== src/Pkg/Package.antt =====
-- internal/pkg/package.go: slots and packages. The atoms of blockers are not modelled; a package is
-- over their type.
pub mod Slots
pub mod Keywords
mod Tests
use grpm.Base.{
  ℕ, Bool, true, false, not, ◌&&◌, ◌||◌, Option, none, some, List, [], ◌∷◌, ◌++◌, drop,
  if◌then◌else◌, Text, codes, text_eq, split_on, has_prefix,
}
use grpm.Base.Assoc.{contains}
use grpm.Pkg.Version.{is_empty}
use grpm.Pkg.Use.{Flags}
use grpm.Pkg.Constraint.{Constraint, ConstraintType, by_version, by_slot, by_use_flag}
use grpm.Pkg.VersionConstraint.{Regexes, VersionConstraint, satisfies}

pub record Slot : Type 0 where
  pub name : Text
  pub subslot : Text
  pub subslot_rebuild : Bool

unfoldable pub new_slot : Text → Text → Slot
new_slot name subslot = record { name = name; subslot = subslot; subslot_rebuild = false }

-- `String`.
unfoldable pub print_slot : Slot → Text
print_slot s = if not (is_empty s.subslot) then s.name ++ (codes "/" ++ s.subslot) else s.name

unfoldable pub slot_equals : Slot → Slot → Bool
unfolding text_eq
slot_equals s other = text_eq s.name other.name && text_eq s.subslot other.subslot

unfoldable pub is_slot_compatible_with : Slot → Slot → Bool
unfolding text_eq
is_slot_compatible_with s other =
    if not (text_eq s.name other.name)
    then true
    else if is_empty s.subslot || is_empty other.subslot
    then true
    else text_eq s.subslot other.subslot

abbrev pub slot_of_parts : Text → List Text → Slot
slot_of_parts slot (name ∷ subslot ∷ _) = new_slot name subslot
slot_of_parts slot _ = new_slot slot []

unfoldable pub parse_slot : Text → Slot
unfolding text_eq split_on new_slot
parse_slot slot =
    if text_eq slot (codes "=")
    then record { name = []; subslot = []; subslot_rebuild = true }
    else slot_of_parts slot (split_on b'/' slot)

pub record BlockerEntry (Atom : Type 0) : Type 0 where
  pub atom : Atom
  pub is_strong : Bool

pub record Package (Atom : Type 0) : Type 0 where
  pub name : Text
  pub version : Text
  pub slot : Slot
  pub use_flags : Flags
  pub keywords : List Text
  pub deps : List Constraint
  pub provides : List Constraint
  pub blockers : List (BlockerEntry Atom)

pub record SlotKey : Type 0 where
  pub name : Text
  pub slot : Text

abbrev pub same_type : ConstraintType → ConstraintType → Bool
same_type by_version by_version = true
same_type by_slot by_slot = true
same_type by_use_flag by_use_flag = true
same_type _ _ = false

-- The loop over the accepted keywords, for one keyword of the package.
unfoldable pub accepts : Text → List Text → Bool
unfolding text_eq has_prefix
accepts kw [] = false
accepts kw (ak ∷ rest) =
    let later = accepts kw rest in
    if text_eq ak (codes "*") || text_eq ak (codes "**")
    then true
    else if text_eq ak (codes "~*") && has_prefix kw (codes "~")
    then true
    else if text_eq kw ak
    then true
    else later

-- The loop over the keywords of the package.
unfoldable pub some_accepted : List Text → List Text → Bool
unfolding accepts has_prefix
some_accepted [] accept_keywords = false
some_accepted (kw ∷ kws) accept_keywords =
    let later = some_accepted kws accept_keywords in
    if has_prefix kw (codes "-") then later else if accepts kw accept_keywords then true else later

-- The loop of `HasDependency`.
unfoldable pub some_named : Text → List Constraint → Bool
unfolding text_eq
some_named package_name [] = false
some_named package_name (dep ∷ deps) =
    let later = some_named package_name deps in
    if text_eq dep.name package_name then true else later

-- The loop of `GetDependenciesByType`.
unfoldable pub of_type : ConstraintType → List Constraint → List Constraint
of_type kind [] = []
of_type kind (dep ∷ deps) =
    let later = of_type kind deps in if same_type dep.kind kind then dep ∷ later else later

module _ {Atom : Type 0} where
  unfoldable pub slot_key_of : Package Atom → SlotKey
  slot_key_of p = record { name = p.name; slot = p.slot.name }

  unfoldable pub new_package : Text → Text → Text → Package Atom
  unfolding parse_slot
  new_package name version slot = record {
    name = name;
    version = version;
    slot = parse_slot slot;
    use_flags = [];
    keywords = [];
    deps = [];
    provides = [];
    blockers = [];
  }

  unfoldable pub has_keyword : Package Atom → Text → Bool
  unfolding contains
  has_keyword p keyword = contains keyword p.keywords

  unfoldable pub is_keyworded : Package Atom → Bool
  is_keyworded p = not (is_empty p.keywords)

  unfoldable pub has_stable_keyword : Package Atom → Text → Bool
  unfolding has_keyword
  has_stable_keyword p arch = has_keyword p arch

  unfoldable pub has_testing_keyword : Package Atom → Text → Bool
  unfolding has_keyword
  has_testing_keyword p arch = has_keyword p (codes "~" ++ arch)

  unfoldable pub is_keyword_accepted : Package Atom → List Text → Bool
  unfolding contains is_keyworded some_accepted
  is_keyword_accepted p accept_keywords =
      if not (is_keyworded p)
      then contains (codes "**") accept_keywords
      else some_accepted p.keywords accept_keywords

  -- `ID` and `FullName`.
  unfoldable pub id_of : Package Atom → Text
  id_of p = p.name ++ codes "-" ++ p.version

  unfoldable pub add_dependency : Package Atom → Constraint → Package Atom
  add_dependency p constraint = record p { deps = p.deps ++ constraint ∷ [] }

  unfoldable pub add_blocker : Package Atom → Atom → Bool → Package Atom
  add_blocker p atom is_strong = record p {
    blockers = p.blockers ++ record { atom = atom; is_strong = is_strong } ∷ [];
  }

  unfoldable pub conflicts_with : Package Atom → Package Atom → Bool
  unfolding text_eq
  conflicts_with p other =
      if text_eq p.name other.name
      then false
      else text_eq p.slot.name other.slot.name && not (text_eq p.slot.subslot other.slot.subslot)

  abbrev pub satisfies_slot : Package Atom → Constraint → Bool
  satisfies_slot p c =
      if same_type c.kind by_slot && not (is_empty c.slot) then text_eq p.slot.name c.slot else true

  -- `none` is a panic of `Satisfies`.
  unfoldable pub satisfies_constraint : Regexes → Package Atom → Constraint → Option Bool
  unfolding text_eq satisfies
  satisfies_constraint r p c = if not (text_eq c.name p.name) then some false else elim c.version [
    | some vc ↦ satisfies r (some vc) p.version
    | none ↦ some (satisfies_slot p c)
  ]

  unfoldable pub is_compatible_with : Package Atom → Package Atom → Bool
  unfolding text_eq is_slot_compatible_with conflicts_with
  is_compatible_with p other =
      if text_eq p.name other.name
      then is_slot_compatible_with p.slot other.slot
      else not (conflicts_with p other)

  unfoldable pub has_dependency : Package Atom → Text → Bool
  unfolding some_named
  has_dependency p package_name = some_named package_name p.deps

  unfoldable pub get_dependencies_by_type : Package Atom → ConstraintType → List Constraint
  unfolding of_type
  get_dependencies_by_type p kind = of_type kind p.deps
