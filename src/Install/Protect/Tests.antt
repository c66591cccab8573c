-- ===== src/Install/Protect/Tests.antt =====
-- Runs of internal/install/protect.go.
use grpm.Base.{
  ◌≡◌, refl, true, false, none, some, [], ◌∷◌, codes, text_eq, has_prefix, has_suffix, split_on,
}
use grpm.Base.Assoc.{contains}
use grpm.Base.Sort.{sort_by}
use grpm.Base.Paths.{
  clean, dir, base, join, clean_parts, parent_of, join_parts, is_rooted, last_part,
}
use grpm.Install.Protect.{
  new_config_protect, is_below, is_protected, is_path_masked, should_protect, add_masked,
  FileSystem, candidate, create, try_numbers, generate_protected_name, middle_of, configs_of,
  find_existing_configs,
}
use grpm.Install.Protect.Fresh.{Chosen, generate_protected_name-Chosen}

cleaned : clean (codes "/etc//conf.d/./../foo/") ≡ codes "/etc/foo"
unfolding clean clean_parts parent_of join_parts is_rooted split_on text_eq
cleaned = refl

cleaned_up : clean (codes "a/../../b") ≡ codes "../b"
unfolding clean clean_parts parent_of join_parts is_rooted split_on text_eq
cleaned_up = refl

masked : should_protect new_config_protect (codes "/etc/env.d/99local") ≡ false
unfolding should_protect is_protected is_path_masked is_below clean clean_parts parent_of join_parts
    is_rooted split_on text_eq has_prefix
masked = refl

protected : should_protect new_config_protect (codes "/etc/foo.conf") ≡ true
unfolding should_protect is_protected is_path_masked is_below clean clean_parts parent_of join_parts
    is_rooted split_on text_eq has_prefix
protected = refl

masked_later :
    should_protect (add_masked new_config_protect (codes "/etc/ssl/")) (codes "/etc/ssl/x") ≡ false
unfolding should_protect is_protected is_path_masked is_below add_masked clean clean_parts parent_of
    join_parts is_rooted split_on text_eq has_prefix
masked_later = refl

-- Where the root is protected, only the root itself is.
below_root :
    is_protected (record new_config_protect { protected = codes "/" ∷ [] }) (codes "/etc/x") ≡ false
unfolding is_protected is_below clean clean_parts parent_of join_parts is_rooted split_on text_eq
    has_prefix
below_root = refl

abbrev etc : FileSystem
etc = record {
  files = codes "/etc/foo.conf" ∷ codes "/etc/._cfg0000_foo.conf" ∷ [];
  refused = codes "/etc/._cfg0001_foo.conf" ∷ [];
}

created : generate_protected_name etc (codes "/etc/foo.conf") ≡ (
  record etc {
    files =
        codes "/etc/foo.conf"
        ∷ codes "/etc/._cfg0000_foo.conf"
        ∷ codes "/etc/._cfg0002_foo.conf"
        ∷ [];
  },
  codes "/etc/._cfg0002_foo.conf",
)
unfolding generate_protected_name try_numbers create candidate contains dir base join clean
    clean_parts parent_of join_parts is_rooted last_part split_on text_eq
created = refl

found :
    find_existing_configs
      (some
        (codes "._cfg0001_a" ∷ codes "._cfg01_a" ∷ codes "._cfg0000_a" ∷ codes "._cfg0000_b" ∷ []))
      (codes "/etc/a")
    ≡ some (codes "/etc/._cfg0000_a" ∷ codes "/etc/._cfg0001_a" ∷ [])
unfolding find_existing_configs configs_of middle_of sort_by dir base join clean clean_parts
    parent_of join_parts is_rooted last_part split_on text_eq has_prefix has_suffix
found = refl

-- The name has the prefix and the suffix, which overlap.
overlapping :
    find_existing_configs (some (codes "._cfg_x" ∷ codes "._cfg" ∷ [])) (codes "/etc/cfg") ≡ none
unfolding find_existing_configs configs_of middle_of sort_by dir base join clean clean_parts
    parent_of join_parts is_rooted last_part split_on text_eq has_prefix has_suffix
overlapping = refl

generate_protected_name-Chosen_example :
    Chosen 10000 0 etc (codes "/etc/foo.conf") (generate_protected_name etc (codes "/etc/foo.conf"))
generate_protected_name-Chosen_example = generate_protected_name-Chosen etc (codes "/etc/foo.conf")
