-- ===== src/Pkg/Use.antt =====
-- internal/pkg/use_resolver.go: the effective USE flags of a package. A `map[string]bool` is an
-- association list; `USEResolverConfig`, an interface, is a record of its methods.
pub mod Priority
mod Tests
use grpm.Base.{
  Bool, true, false, not, ◌&&◌, Option, none, some, List, [], ◌∷◌, ◌++◌, drop, if◌then◌else◌, Text,
  codes, has_prefix,
}
use grpm.Base.Assoc.{lookup, insert, remove, keys}
use grpm.Base.Fields.{fields, to_lower}

abbrev pub Flags : Type 0
Flags = List (Text × Bool)

-- `m[flag]`: false where the flag is absent.
unfoldable pub flag_of : Flags → Text → Bool
unfolding lookup
flag_of m flag = elim (lookup flag m) [ some b ↦ b | none ↦ false ]

pub record UseResolverConfig : Type 0 where
  pub profile_use_flags : List Text
  pub global_use_flags : List Text
  pub package_use_flags : Text → Text → Text → Text → List Text
  pub use_expand_value : Text → Text
  pub forced_use : List Text
  pub masked_use : List Text

abbrev pub use_expand_vars : List Text
use_expand_vars =
    codes "PYTHON_SINGLE_TARGET"
    ∷ codes "PYTHON_TARGETS"
    ∷ codes "LUA_SINGLE_TARGET"
    ∷ codes "LUA_TARGETS"
    ∷ codes "RUBY_TARGETS"
    ∷ []

-- The loop over the IUSE defaults.
unfoldable pub apply_defaults : Flags → Flags → Flags
unfolding insert
apply_defaults m [] = m
apply_defaults m ((flag, enabled) ∷ iuse) =
    apply_defaults (if enabled then insert flag true m else m) iuse

unfoldable pub apply_use_flag : Flags → Text → Flags
unfolding insert remove has_prefix
apply_use_flag m flag =
    if has_prefix flag (codes "-") then remove (drop 1 flag) m else insert flag true m

unfoldable pub apply_use_flag_list : Flags → List Text → Flags
unfolding apply_use_flag
apply_use_flag_list m [] = m
apply_use_flag_list m (flag ∷ flags) = apply_use_flag_list (apply_use_flag m flag) flags

unfoldable pub enable_all : Flags → List Text → Flags
unfolding insert
enable_all m [] = m
enable_all m (flag ∷ flags) = enable_all (insert flag true m) flags

unfoldable pub disable_all : Flags → List Text → Flags
unfolding remove
disable_all m [] = m
disable_all m (flag ∷ flags) = disable_all (remove flag m) flags

abbrev pub with_prefix : Text → List Text → List Text
with_prefix prefix [] = []
with_prefix prefix (val ∷ vals) = (prefix ++ to_lower val) ∷ with_prefix prefix vals

-- The flags of one USE_EXPAND variable; an empty value has no fields.
unfoldable pub expand_var : UseResolverConfig → Text → List Text
unfolding fields to_lower
expand_var cfg var_name =
    with_prefix (to_lower var_name ++ codes "_") (fields (cfg.use_expand_value var_name))

unfoldable pub apply_use_expand : UseResolverConfig → Flags → List Text → Flags
unfolding enable_all expand_var
apply_use_expand cfg m [] = m
apply_use_expand cfg m (var_name ∷ vars) =
    apply_use_expand cfg (enable_all m (expand_var cfg var_name)) vars

-- Steps 2 to 6 of `ResolveEffectiveUSE`.
unfoldable pub apply_config : UseResolverConfig → Text → Text → Text → Text → Flags → Flags
unfolding apply_use_flag_list apply_use_expand disable_all
apply_config cfg category name version slot m =
    let with_profile = apply_use_flag_list m cfg.profile_use_flags in
    let with_global = apply_use_flag_list with_profile cfg.global_use_flags in
    let with_expand = apply_use_expand cfg with_global use_expand_vars in
    let with_package =
      apply_use_flag_list with_expand (cfg.package_use_flags category name version slot) in
    disable_all (enable_all with_package cfg.forced_use) cfg.masked_use

unfoldable pub resolve_effective_use :
    Flags → Text → Text → Text → Text → Option UseResolverConfig → Flags
unfolding apply_config apply_defaults
resolve_effective_use iuse category name version slot none = apply_defaults [] iuse
resolve_effective_use iuse category name version slot (some cfg) =
    apply_config cfg category name version slot (apply_defaults [] iuse)

unfoldable pub is_use_conditional_active : Text → Flags → Bool
unfolding flag_of
is_use_conditional_active [] m = true
is_use_conditional_active (c ∷ s) m =
    if has_prefix (c ∷ s) (codes "!") then not (flag_of m s) else flag_of m (c ∷ s)

unfoldable pub are_use_conditions_active : List Text → Flags → Bool
unfolding is_use_conditional_active
are_use_conditions_active [] m = true
are_use_conditions_active (cond ∷ conds) m =
    let rest = are_use_conditions_active conds m in
    if not (is_use_conditional_active cond m) then false else rest

-- One pass of the loop of `ParseIUSEDefaults`: the flag and its state.
unfoldable pub iuse_flag : Text → Text × Bool
iuse_flag flag =
    if has_prefix flag (codes "+")
    then (drop 1 flag, true)
    else if has_prefix flag (codes "-")
    then (drop 1 flag, false)
    else (flag, false)

unfoldable pub parse_iuse_fields : Flags → Flags → List Text → Flags × Flags
unfolding insert iuse_flag
parse_iuse_fields defaults flags [] = (defaults, flags)
parse_iuse_fields defaults flags (f ∷ fs) =
    let (flag, enabled) = iuse_flag f in
    parse_iuse_fields (insert flag enabled defaults) (insert flag enabled flags) fs

unfoldable pub parse_iuse_defaults : Text → Flags × Flags
unfolding fields parse_iuse_fields
parse_iuse_defaults s = parse_iuse_fields [] [] (fields s)

unfoldable pub split_enabled_disabled : Flags → Flags → List Text × List Text
unfolding flag_of
split_enabled_disabled effective [] = ([], [])
split_enabled_disabled effective ((flag, b) ∷ iuse) =
    let (enabled, disabled) = split_enabled_disabled effective iuse in
    if flag_of effective flag then (flag ∷ enabled, disabled) else (enabled, flag ∷ disabled)
