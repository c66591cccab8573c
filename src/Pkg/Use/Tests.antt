-- ===== src/Pkg/Use/Tests.antt =====
-- Runs of internal/pkg/use_resolver.go.
use grpm.Base.{
  text_eq, has_prefix, ◌≤◌, ◌≡◌, refl, true, false, ◌||◌, some, [], ◌∷◌, arith, codes,
  if◌then◌else◌,
}
use grpm.Base.Assoc.{count, keys, contains, lookup}
use grpm.Base.Fields.{fields}
use grpm.Pkg.Use.{
  Flags, UseResolverConfig, flag_of, resolve_effective_use, parse_iuse_defaults,
  split_enabled_disabled, use_expand_vars,
}
use grpm.Pkg.Use.Priority.{
  or_said, last_word, last_iuse, expanded, resolve_effective_use-priority, parse_iuse_defaults_lem,
  split_enabled_disabled-partition,
}

abbrev iuse : Flags
iuse = (codes "ssl", true) ∷ (codes "doc", false) ∷ []

abbrev config : UseResolverConfig
config = record {
  profile_use_flags = codes "doc" ∷ codes "-ssl" ∷ [];
  global_use_flags = codes "ssl" ∷ [];
  package_use_flags = λ category name version slot. codes "-doc" ∷ codes "debug" ∷ [];
  use_expand_value = λ var_name. codes "Python3_12 pypy3";
  forced_use = codes "hardened" ∷ [];
  masked_use = codes "debug" ∷ [];
}

abbrev resolved : Flags
resolved =
    resolve_effective_use iuse (codes "dev-libs") (codes "x") (codes "1") (codes "0") (some config)

expanded_flag : flag_of resolved (codes "python_targets_python3_12") ≡ true
unfolding flag_of resolve_effective_use text_eq
expanded_flag = refl

masked_flag : flag_of resolved (codes "debug") ≡ false
unfolding flag_of resolve_effective_use text_eq
masked_flag = refl

parsed : parse_iuse_defaults (codes "+ssl doc -test") ≡ (
  (codes "ssl", true) ∷ (codes "doc", false) ∷ (codes "test", false) ∷ [],
  (codes "ssl", true) ∷ (codes "doc", false) ∷ (codes "test", false) ∷ [],
)
unfolding parse_iuse_defaults text_eq has_prefix
parsed = refl

doc_once : count (codes "doc") (keys iuse) ≤ 1
unfolding count text_eq
doc_once = omega arith

resolve_effective_use-priority_example : flag_of resolved (codes "doc") ≡ (
    if contains (codes "doc") (codes "debug" ∷ [])
    then false
    else (contains (codes "doc") (codes "hardened" ∷ [])
        || or_said (last_word (codes "doc") (codes "-doc" ∷ codes "debug" ∷ [])) (
            contains (codes "doc") (expanded config use_expand_vars)
            || or_said (last_word (codes "doc") (codes "ssl" ∷ [])) (
                or_said
                  (last_word (codes "doc") (codes "doc" ∷ codes "-ssl" ∷ []))
                  (flag_of iuse (codes "doc"))))))
resolve_effective_use-priority_example =
    resolve_effective_use-priority iuse (codes "dev-libs") (codes "x") (codes "1") (codes "0")
      config (codes "doc") doc_once

parse_iuse_defaults_lem_example :
    (lookup (codes "doc") (parse_iuse_defaults (codes "+ssl doc -test")).0
      ≡ last_iuse (codes "doc") (fields (codes "+ssl doc -test")))
    × (lookup (codes "doc") (parse_iuse_defaults (codes "+ssl doc -test")).1
        ≡ last_iuse (codes "doc") (fields (codes "+ssl doc -test")))
parse_iuse_defaults_lem_example = parse_iuse_defaults_lem (codes "+ssl doc -test") (codes "doc")

split_enabled_disabled-partition_example :
    (count (codes "ssl") (split_enabled_disabled resolved iuse).0
      ≡ (if flag_of resolved (codes "ssl") then count (codes "ssl") (keys iuse) else 0))
    × (count (codes "ssl") (split_enabled_disabled resolved iuse).1
        ≡ (if flag_of resolved (codes "ssl") then 0 else count (codes "ssl") (keys iuse)))
split_enabled_disabled-partition_example =
    split_enabled_disabled-partition resolved iuse (codes "ssl")
