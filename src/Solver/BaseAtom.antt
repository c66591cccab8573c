-- ===== src/Solver/BaseAtom.antt =====
-- `extractBaseAtom` of internal/solver/depclean.go.
use grpm.Base.{
  ℕ, Bool, false, ◌&&◌, Option, none, some, List, [], ◌∷◌, ◌==◌, drop, length, if◌then◌else◌, Text,
  codes, has_prefix, is_digit,
}

-- `strings.TrimPrefix`.
unfoldable pub trim_prefix : Text → Text → Text
unfolding has_prefix
trim_prefix s p = if has_prefix s p then drop (length p) s else s

-- What stands before the first occurrence of a byte: `s[:strings.Index(s, c)]`, or all of `s`.
unfoldable pub before : ℕ → Text → Text
before c [] = []
before c (x ∷ s) = let rest = before c s in if x == c then [] else x ∷ rest

unfoldable pub trim_prefixes : Text → List Text → Text
unfolding trim_prefix
trim_prefixes s [] = s
trim_prefixes s (p ∷ ps) = trim_prefixes (trim_prefix s p) ps

abbrev pub operators : List Text
operators = codes ">=" ∷ codes "<=" ∷ codes ">" ∷ codes "<" ∷ codes "=" ∷ codes "~" ∷ []

abbrev pub starts_with_digit : Text → Bool
starts_with_digit [] = false
starts_with_digit (c ∷ s) = is_digit c

abbrev pub or_here : ℕ → Bool → Option Text → Option Text
or_here c here (some name) = some (c ∷ name)
or_here c here none = if here then some [] else none

-- The loop from the end: what stands before the last hyphen with a digit behind it.
unfoldable pub before_version : Text → Option Text
before_version [] = none
before_version (c ∷ s) = or_here c ((c == b'-') && starts_with_digit s) (before_version s)

unfoldable pub extract_base_atom : Text → Text
unfolding trim_prefixes before before_version
extract_base_atom full_name =
    let atom = before b'[' (before b':' (trim_prefixes full_name operators)) in
    elim (before_version atom) [ none ↦ atom | some name ↦ name ]

-- The name of a package may hold its version; the version itself is not read.
unfoldable pub extract_package_atom : Text → Text → Text
unfolding extract_base_atom
extract_package_atom name version = extract_base_atom name
