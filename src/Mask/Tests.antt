-- ===== src/Mask/Tests.antt =====
-- Runs of internal/mask/manager.go.
use Prim.Native.String.{String}
use grpm.Base.{
  ◌≡◌, refl, Bool, true, false, not, ◌&&◌, ◌||◌, none, some, List, [], ◌∷◌, ◌++◌, any, is_some,
  codes,
}
use grpm.Pkg.VersionConstraint.{Regexes}
use grpm.Mask.{MaskEntry, MaskManager, new_mask_manager, mask_entries, is_masked, get_mask_atom}
use grpm.Mask.Decides.{masks, negates, applies, is_masked-new_mask_manager}

abbrev regexes : Regexes
regexes = record {
  versions = record {
    digit_match = λ s. true;
    revision_match = λ s. none;
    suffix_starts = λ s. [];
    suffix_matches = λ s. [];
    main_match = λ s. some (s, []);
  };
  legacy_find_all = λ s. [];
}

abbrev lines : String → String → List MaskEntry
lines source line = mask_entries (codes source) (codes "package.mask") (codes line ∷ [])

abbrev gcc_masked : MaskManager → Bool
gcc_masked m = is_masked regexes m (codes "sys-devel") (codes "gcc") (codes "16") (codes "16")

abbrev user_mask : MaskManager
user_mask = new_mask_manager [] [] (lines "user" "sys-devel/gcc") []

is_masked-new_mask_manager_example :
    (gcc_masked user_mask ≡ (
      any
        (masks regexes (codes "sys-devel") (codes "gcc") (codes "16") (codes "16"))
        ([] ++ ([] ++ lines "user" "sys-devel/gcc"))
      && not (
          any
            (negates regexes (codes "sys-devel") (codes "gcc") (codes "16") (codes "16"))
            ([] ++ ([] ++ lines "user" "sys-devel/gcc"))
          || any (applies regexes (codes "sys-devel") (codes "gcc") (codes "16") (codes "16")) [])))
    × (is_some (
          get_mask_atom regexes user_mask
            (codes "sys-devel")
            (codes "gcc")
            (codes "16")
            (codes "16"))
        ≡ gcc_masked user_mask)
is_masked-new_mask_manager_example =
    is_masked-new_mask_manager regexes (codes "sys-devel") (codes "gcc") (codes "16") (codes "16")
      [] [] (lines "user" "sys-devel/gcc") []

-- A negation of the repository lifts the mask of the user, and a mask with a wildcard is not found.
layers :
    (gcc_masked user_mask ≡ true)
    × (gcc_masked (
          new_mask_manager
            (lines "repository" "-sys-devel/gcc")
            []
            (lines "user" "sys-devel/gcc")
            [])
        ≡ false)
    × (gcc_masked (new_mask_manager [] [] (lines "user" "sys-devel/*") []) ≡ false)
unfolding new_mask_manager mask_entries is_masked
layers = (refl, refl, refl)
