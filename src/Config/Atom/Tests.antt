-- ===== src/Config/Atom/Tests.antt =====
-- Runs of internal/config/atom.go.
use grpm.Base.{◌≡◌, refl, true, false, [], ◌∷◌, codes}
use grpm.Config.Atom.{parse_atom, match_pattern, match_slot, strip_revision, expand_use_expand}

parsed : parse_atom (codes "=app-misc/hello-2.1*:0/1::gentoo") ≡ record {
  operator = codes "=*";
  category = codes "app-misc";
  name = codes "hello";
  version = codes "2.1";
  slot = codes "0/1";
  repository = codes "gentoo";
  raw = codes "=app-misc/hello-2.1*:0/1::gentoo";
}
unfolding parse_atom
parsed = refl

patterns :
    (match_pattern (codes "dev-*") (codes "dev-lang") ≡ true)
    × (match_pattern (codes "*-libs") (codes "x11-libs") ≡ true)
    × (match_slot (codes "0/1") (codes "0/2") ≡ false)
    × (strip_revision (codes "1.0-r10") ≡ codes "1.0")
unfolding match_pattern match_slot strip_revision
patterns = (refl, refl, refl, refl)

expanded :
    expand_use_expand (codes "nls" ∷ codes "CPU_FLAGS_X86:" ∷ codes "avx2" ∷ codes "-sse" ∷ [])
    ≡ codes "nls" ∷ codes "cpu_flags_x86_avx2" ∷ codes "-cpu_flags_x86_sse" ∷ []
unfolding expand_use_expand
expanded = refl
