-- ===== src/Pkg/Use/Priority.antt =====
-- The layers of internal/pkg/use_resolver.go, read flag by flag.
use grpm.Base.{
  ◌≤◌, ◌≡◌, refl, Bool, true, false, ◌||◌, Option, none, some, List, [], ◌∷◌, ◌++◌, arith,
  if◌then◌else◌, drop, Text, codes, text_eq, text_eq_iff, has_prefix, not, ◌&&◌, ◌==◌,
}
use grpm.Base.Assoc.{
  lookup, insert, remove, keys, count, contains, lookup-insert, lookup-remove, contains-append,
}
use grpm.Base.Fields.{fields}
use grpm.Pkg.Use.{
  Flags, flag_of, UseResolverConfig, apply_defaults, apply_use_flag, apply_use_flag_list,
  enable_all, disable_all, expand_var, apply_use_expand, use_expand_vars, apply_config,
  resolve_effective_use, iuse_flag, parse_iuse_fields, parse_iuse_defaults, split_enabled_disabled,
}

flag_of-insert :
    (m : Flags) (k f : Text) (b : Bool)
    → flag_of (insert k b m) f ≡ (if text_eq k f then b else flag_of m f)
unfolding flag_of
flag_of-insert m k f b = rw (flag_of, lookup-insert k f b m) (ground arith)

flag_of-remove :
    (m : Flags) (k f : Text) → flag_of (remove k m) f ≡ (if text_eq k f then false else flag_of m f)
unfolding flag_of
flag_of-remove m k f = rw (flag_of, lookup-remove k f m) (ground arith)

-- What a list of flags says of one: its last entry about that flag, if there is one.
unfoldable pub mention : Text → Text → Option Bool
mention f entry =
    if has_prefix entry (codes "-")
    then (if text_eq (drop 1 entry) f then some false else none)
    else if text_eq entry f
    then some true
    else none

unfoldable pub or_said : Option Bool → Bool → Bool
or_said none b = b
or_said (some a) b = a

unfoldable pub last_word : Text → List Text → Option Bool
unfolding mention
last_word f [] = none
last_word f (entry ∷ l) = elim (last_word f l) [ some b ↦ some b | none ↦ mention f entry ]

flag_of-apply_use_flag :
    (m : Flags) (entry f : Text)
    → flag_of (apply_use_flag m entry) f ≡ or_said (mention f entry) (flag_of m f)
unfolding apply_use_flag mention or_said
flag_of-apply_use_flag m entry f =
    ground (arith, flag_of-remove m (drop 1 entry) f, flag_of-insert m entry f true)

flag_of-apply_use_flag_list :
    (m : Flags) (l : List Text) (f : Text)
    → flag_of (apply_use_flag_list m l) f ≡ or_said (last_word f l) (flag_of m f)
unfolding apply_use_flag_list last_word or_said
flag_of-apply_use_flag_list m [] f = refl
flag_of-apply_use_flag_list m (entry ∷ l) f = ground (
  arith,
  flag_of-apply_use_flag_list (apply_use_flag m entry) l f,
  flag_of-apply_use_flag m entry f,
)

flag_of-enable_all :
    (m : Flags) (l : List Text) (f : Text)
    → flag_of (enable_all m l) f ≡ (contains f l || flag_of m f)
unfolding enable_all contains
flag_of-enable_all m [] f = refl
flag_of-enable_all m (k ∷ l) f =
    ground (arith, flag_of-enable_all (insert k true m) l f, flag_of-insert m k f true)

flag_of-disable_all :
    (m : Flags) (l : List Text) (f : Text)
    → flag_of (disable_all m l) f ≡ (if contains f l then false else flag_of m f)
unfolding disable_all contains
flag_of-disable_all m [] f = refl
flag_of-disable_all m (k ∷ l) f =
    ground (arith, flag_of-disable_all (remove k m) l f, flag_of-remove m k f)

-- The flags of several USE_EXPAND variables.
unfoldable pub expanded : UseResolverConfig → List Text → List Text
expanded cfg [] = []
expanded cfg (v ∷ vars) = expand_var cfg v ++ expanded cfg vars

flag_of-apply_use_expand :
    (cfg : UseResolverConfig) (m : Flags) (vars : List Text) (f : Text)
    → flag_of (apply_use_expand cfg m vars) f ≡ (contains f (expanded cfg vars) || flag_of m f)
unfolding apply_use_expand expanded contains
flag_of-apply_use_expand cfg m [] f = refl
flag_of-apply_use_expand cfg m (v ∷ vars) f = ground (
  arith,
  flag_of-apply_use_expand cfg (enable_all m (expand_var cfg v)) vars f,
  flag_of-enable_all m (expand_var cfg v) f,
  contains-append f (expand_var cfg v) (expanded cfg vars),
)

or_false : (b : Bool) → (b || false) ≡ b
or_false true = refl
or_false false = refl

flag_of-absent : (m : Flags) (f : Text) → count f (keys m) ≡ 0 → flag_of m f ≡ false
unfolding flag_of lookup count
flag_of-absent [] f h = refl
flag_of-absent ((k, b) ∷ m) f h = ground (arith, flag_of-absent m f)

flag_of-apply_defaults :
    (m iuse : Flags) (f : Text)
    → count f (keys iuse) ≤ 1
    → flag_of (apply_defaults m iuse) f ≡ (flag_of iuse f || flag_of m f)
unfolding apply_defaults count flag_of lookup
flag_of-apply_defaults m [] f h = refl
flag_of-apply_defaults m ((k, true) ∷ iuse) f h = ground (
  arith,
  flag_of-apply_defaults (insert k true m) iuse f,
  flag_of-insert m k f true,
  flag_of-absent iuse f,
)
flag_of-apply_defaults m ((k, false) ∷ iuse) f h =
    ground (arith, flag_of-apply_defaults m iuse f, flag_of-absent iuse f)

-- For every configuration and every flag that IUSE lists at most once, `ResolveEffectiveUSE` leaves
-- the flag off if use.mask has it, else on if use.force has it, and else as the last entry about it
-- in package.use says; without one it is on if a USE_EXPAND variable names it, and else as the last
-- entry of make.conf, then of the profile, then the IUSE default says.
pub resolve_effective_use-priority :
    (iuse : Flags) (category name version slot : Text) (cfg : UseResolverConfig) (f : Text)
    → count f (keys iuse) ≤ 1
    → flag_of (resolve_effective_use iuse category name version slot (some cfg)) f ≡ (
        if contains f cfg.masked_use
        then false
        else (contains f cfg.forced_use
            || or_said (last_word f (cfg.package_use_flags category name version slot)) (
                contains f (expanded cfg use_expand_vars)
                || or_said
                    (last_word f cfg.global_use_flags)
                    (or_said (last_word f cfg.profile_use_flags) (flag_of iuse f)))))
unfolding resolve_effective_use apply_config flag_of lookup
resolve_effective_use-priority iuse category name version slot cfg f h =
    let m0 = apply_defaults [] iuse in
    let m1 = apply_use_flag_list m0 cfg.profile_use_flags in
    let m2 = apply_use_flag_list m1 cfg.global_use_flags in
    let m3 = apply_use_expand cfg m2 use_expand_vars in
    let m4 = apply_use_flag_list m3 (cfg.package_use_flags category name version slot) in
    rw
      (
        apply_config,
        flag_of-disable_all (enable_all m4 cfg.forced_use) cfg.masked_use f,
        flag_of-enable_all m4 cfg.forced_use f,
        flag_of-apply_use_flag_list m3 (cfg.package_use_flags category name version slot) f,
        flag_of-apply_use_expand cfg m2 use_expand_vars f,
        flag_of-apply_use_flag_list m1 cfg.global_use_flags f,
        flag_of-apply_use_flag_list m0 cfg.profile_use_flags f,
        flag_of-apply_defaults [] iuse f h,
        flag_of,
        or_false (flag_of iuse f),
      )
      refl

abbrev is_signed : Text → Bool
is_signed [] = false
is_signed (c ∷ s) = c == b'+' || c == b'-'

-- What a field of an IUSE string says of a flag: `+flag` that it is on, and `-flag` and `flag` that
-- it is off.
unfoldable pub iuse_says : Text → Text → Option Bool
unfolding text_eq
iuse_says f entry =
    if text_eq entry (b'+' ∷ f)
    then some true
    else if text_eq entry (b'-' ∷ f)
    then some false
    else if text_eq entry f && not (is_signed entry)
    then some false
    else none

iuse_flag-says :
    (entry f : Text)
    → (if text_eq (iuse_flag entry).0 f then some (iuse_flag entry).1 else none) ≡ iuse_says f entry
unfolding iuse_flag iuse_says text_eq has_prefix
iuse_flag-says [] [] = refl
iuse_flag-says [] (c ∷ f) = refl
iuse_flag-says (c ∷ s) f = ground arith

-- What the fields of an IUSE string say of a flag: the last field about it.
unfoldable pub last_iuse : Text → List Text → Option Bool
unfolding iuse_says
last_iuse f [] = none
last_iuse f (entry ∷ l) = elim (last_iuse f l) [ some b ↦ some b | none ↦ iuse_says f entry ]

unfoldable pub or_else_said : Option Bool → Option Bool → Option Bool
or_else_said none o = o
or_else_said (some a) o = some a

lookup-parse_iuse_fields :
    (d m : Flags) (l : List Text) (f : Text)
    → (lookup f (parse_iuse_fields d m l).0 ≡ or_else_said (last_iuse f l) (lookup f d))
      × (lookup f (parse_iuse_fields d m l).1 ≡ or_else_said (last_iuse f l) (lookup f m))
unfolding parse_iuse_fields last_iuse or_else_said
lookup-parse_iuse_fields d m [] f = (refl, refl)
lookup-parse_iuse_fields d m (entry ∷ l) f =
    let (k, b) = iuse_flag entry in
    ground (
      arith,
      lookup-parse_iuse_fields (insert k b d) (insert k b m) l f,
      lookup-insert k f b d,
      lookup-insert k f b m,
      iuse_flag-says entry f,
    )

-- For every IUSE string and flag, both maps of `ParseIUSEDefaults` hold the flag exactly if a field
-- of the string names it, and then with the state of the last such field: on for `+flag`, off for
-- `-flag` and for `flag`.
pub parse_iuse_defaults_lem :
    (s f : Text)
    → (lookup f (parse_iuse_defaults s).0 ≡ last_iuse f (fields s))
      × (lookup f (parse_iuse_defaults s).1 ≡ last_iuse f (fields s))
unfolding parse_iuse_defaults lookup or_else_said
parse_iuse_defaults_lem s f = ground (arith, lookup-parse_iuse_fields [] [] (fields s) f)

-- For every effective state, IUSE map and flag, `SplitEnabledDisabled` puts the flag as often as
-- IUSE has it into one of the two lists and never into the other: into the list of enabled flags if
-- it is on, and into that of the disabled flags if it is off.
pub split_enabled_disabled-partition :
    (effective iuse : Flags) (f : Text)
    → (count f (split_enabled_disabled effective iuse).0
        ≡ (if flag_of effective f then count f (keys iuse) else 0))
      × (count f (split_enabled_disabled effective iuse).1
          ≡ (if flag_of effective f then 0 else count f (keys iuse)))
unfolding split_enabled_disabled count
split_enabled_disabled-partition effective [] f = ground arith
split_enabled_disabled-partition effective ((k, b) ∷ iuse) f =
    ground (arith, split_enabled_disabled-partition effective iuse f, text_eq_iff k f)
