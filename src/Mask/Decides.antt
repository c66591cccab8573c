-- ===== src/Mask/Decides.antt =====
-- Which packages internal/mask/manager.go takes as masked.
use grpm.Base.{
  ◌≡◌, refl, arith, Bool, true, false, not, ◌&&◌, ◌||◌, Option, none, some, List, [], ◌∷◌, ◌++◌,
  if◌then◌else◌, any, any-append, is_some, if_rule, Text, text_eq, text_eq_iff,
}
use grpm.Base.Assoc.{lookup, lookup-insert}
use grpm.Pkg.VersionConstraint.{Regexes}
use grpm.Config.Atom.{PackageAtom, matches}
use grpm.Mask.{
  MaskEntry, MaskManager, Index, entries_at, append_at, package_key, key_of, add_to_mask_index,
  add_to_unmask_index, add_masks, add_unmasks, build_index, new_mask_manager, find_match,
  is_unmasked, mask_of, is_masked, get_mask_atom,
}

entries_at-append_at :
    (k cp : Text) (entry : MaskEntry) (m : Index)
    → entries_at k (append_at cp entry m)
      ≡ (if text_eq cp k then entries_at k m ++ entry ∷ [] else entries_at k m)
unfolding entries_at append_at
entries_at-append_at k cp entry m =
    ground (arith, lookup-insert cp k (entries_at cp m ++ entry ∷ []) m, text_eq_iff cp k)

if_found :
    (b : Bool) (e : MaskEntry) (o : Option MaskEntry)
    → is_some (if b then some e else o) ≡ (b || is_some o)
if_found true e o = refl
if_found false e o = refl

some_atom :
    (u : Bool) (o : Option MaskEntry)
    → is_some {A = PackageAtom} (elim (if u then none else o) as (λ x. Option PackageAtom) [
      | none ↦ none
      | some entry ↦ some entry.atom
    ])
      ≡ (if u then false else is_some o)
some_atom true o = refl
some_atom false none = refl
some_atom false (some entry) = refl

module _ (r : Regexes) (category name version slot : Text) where
  -- The entry is for exactly this category and name, and its atom matches.
  abbrev pub applies : MaskEntry → Bool
  applies entry =
      text_eq (key_of entry) (package_key category name)
      && matches r entry.atom category name version slot

  abbrev pub masks : MaskEntry → Bool
  masks entry = not entry.is_negation && applies entry

  abbrev pub negates : MaskEntry → Bool
  negates entry = entry.is_negation && applies entry

  abbrev found : List MaskEntry → Bool
  found l = is_some (find_match r l category name version slot)

  found_nil : found [] ≡ false
  unfolding find_match
  found_nil = refl

  found_cons :
      (entry : MaskEntry) (l : List MaskEntry)
      → found (entry ∷ l) ≡ (matches r entry.atom category name version slot || found l)
  unfolding find_match
  found_cons entry l =
      if_found (matches r entry.atom category name version slot) entry
        (find_match r l category name version slot)

  found-append : (l l' : List MaskEntry) → found (l ++ l') ≡ (found l || found l')
  found-append [] l' = rw (found_nil) refl
  found-append (entry ∷ l) l' =
      rw (found_cons entry (l ++ l'), found_cons entry l, found-append l l') (ground arith)

  abbrev found_at : Index → Bool
  found_at m = found (entries_at (package_key category name) m)

  append_at-found_at :
      (entry : MaskEntry) (m : Index)
      → found_at (append_at (key_of entry) entry m) ≡ (found_at m || applies entry)
  append_at-found_at entry m =
      let k = package_key category name in
      rw (entries_at-append_at k (key_of entry) entry m) (
        if_rule (λ l. found l ≡ (found_at m || applies entry)) (text_eq (key_of entry) k) _ _
          (λ t.
            rw (found-append (entries_at k m) (entry ∷ []), found_cons entry [], found_nil, t)
              (ground arith))
          (λ f. rw (f) (ground arith)))

  add_masks-masked :
      (m : MaskManager) (l : List MaskEntry)
      → found_at (add_masks m l).mask_index ≡ (found_at m.mask_index || any masks l)
  unfolding add_masks add_to_mask_index
  add_masks-masked m [] = ground arith
  add_masks-masked m (entry ∷ l) =
      ground (
        arith,
        add_masks-masked (add_to_mask_index m entry) l,
        append_at-found_at entry m.mask_index,
      )

  add_masks-unmasked :
      (m : MaskManager) (l : List MaskEntry)
      → found_at (add_masks m l).unmask_index ≡ (found_at m.unmask_index || any negates l)
  unfolding add_masks add_to_mask_index
  add_masks-unmasked m [] = ground arith
  add_masks-unmasked m (entry ∷ l) = ground (
    arith,
    add_masks-unmasked (add_to_mask_index m entry) l,
    append_at-found_at entry m.unmask_index,
  )

  add_unmasks-masked :
      (m : MaskManager) (l : List MaskEntry) → (add_unmasks m l).mask_index ≡ m.mask_index
  unfolding add_unmasks add_to_unmask_index
  add_unmasks-masked m [] = refl
  add_unmasks-masked m (entry ∷ l) = add_unmasks-masked (add_to_unmask_index m entry) l

  add_unmasks-unmasked :
      (m : MaskManager) (l : List MaskEntry)
      → found_at (add_unmasks m l).unmask_index ≡ (found_at m.unmask_index || any applies l)
  unfolding add_unmasks add_to_unmask_index
  add_unmasks-unmasked m [] = ground arith
  add_unmasks-unmasked m (entry ∷ l) = ground (
    arith,
    add_unmasks-unmasked (add_to_unmask_index m entry) l,
    append_at-found_at entry m.unmask_index,
  )

  abbrev empty : (repo profile user unmasks : List MaskEntry) → MaskManager
  empty repo profile user unmasks = record {
    repo_masks = repo;
    profile_masks = profile;
    user_masks = user;
    user_unmasks = unmasks;
    mask_index = [];
    unmask_index = [];
  }

  module _ (repo profile user unmasks : List MaskEntry) where
    abbrev blank : MaskManager
    blank = record {
      repo_masks = repo;
      profile_masks = profile;
      user_masks = user;
      user_unmasks = unmasks;
      mask_index = [];
      unmask_index = [];
    }

    abbrev with_repo : MaskManager
    with_repo = add_masks blank repo

    abbrev with_profile : MaskManager
    with_profile = add_masks with_repo profile

    abbrev with_user : MaskManager
    with_user = add_masks with_profile user

    none_found : found_at [] ≡ false
    unfolding entries_at lookup
    none_found = found_nil

    abbrev built : MaskManager
    built = new_mask_manager repo profile user unmasks

    built-masked : found_at built.mask_index ≡ any masks (repo ++ (profile ++ user))
    unfolding new_mask_manager build_index
    built-masked =
        rw
          (
            add_unmasks-masked with_user unmasks,
            add_masks-masked with_profile user,
            add_masks-masked with_repo profile,
            add_masks-masked blank repo,
            none_found,
            any-append masks repo (profile ++ user),
            any-append masks profile user,
          )
          (ground arith)

    built-unmasked :
        found_at built.unmask_index
        ≡ (any negates (repo ++ (profile ++ user)) || any applies unmasks)
    unfolding new_mask_manager build_index
    built-unmasked =
        rw
          (
            add_unmasks-unmasked with_user unmasks,
            add_masks-unmasked with_profile user,
            add_masks-unmasked with_repo profile,
            add_masks-unmasked blank repo,
            none_found,
            any-append negates repo (profile ++ user),
            any-append negates profile user,
          )
          (ground arith)

    -- A package is masked exactly if an entry of a mask file that is no negation applies to it,
    -- and neither a negation of any mask file nor an entry of the unmask file does, whatever their
    -- sources; to apply, the atom has to name exactly the category and the package and to match.
    -- GetMaskAtom finds an atom exactly for the packages that are masked.
    pub is_masked-new_mask_manager :
        (is_masked r built category name version slot ≡ (
          any masks (repo ++ (profile ++ user))
          && not (any negates (repo ++ (profile ++ user)) || any applies unmasks)))
        × (is_some (get_mask_atom r built category name version slot)
            ≡ is_masked r built category name version slot)
    unfolding get_mask_atom mask_of is_masked is_unmasked
    is_masked-new_mask_manager = (
      rw (built-unmasked, built-masked) (ground arith),
      some_atom (is_unmasked r built category name version slot) (
          find_match r (entries_at (package_key category name) built.mask_index) category name
            version slot),
    )
