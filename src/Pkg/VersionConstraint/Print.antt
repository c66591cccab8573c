-- ===== src/Pkg/VersionConstraint/Print.antt =====
-- Printing and parsing of the version constraints of internal/pkg/constraint.go.
use grpm.Base.{
  ℕ, ◌≡◌, refl, Bool, true, false, ◌&&◌, not, ◌∷◌, arith, ◌==◌, Text, has_prefix, trim_space,
}
use grpm.Pkg.VersionConstraint.{
  VersionOperator, op_equal, op_greater, op_greater_equal, op_less, op_less_equal, op_equal_glob,
  op_revision_match, constraint, print, parse_version_constraint,
}

-- The operators that `ParseVersionConstraint` reads.
abbrev pub is_read : VersionOperator → Bool
is_read op_equal_glob = false
is_read op_revision_match = false
is_read _ = true

-- No operator starts with this byte.
abbrev pub is_plain : ℕ → Bool
is_plain c = not (c == b'<') && not (c == b'>') && not (c == b'=')

-- `ParseVersionConstraint` reads back what `String` prints: for the five operators `=`, `>`, `>=`,
-- `<`, `<=` and a version that is not empty, has no space at its ends and does not begin with one of
-- the bytes `<`, `>` and `=`.
pub parse_version_constraint-print :
    (op : VersionOperator) (c : ℕ) (s : Text)
    → is_read op ≡ true
    → is_plain c ≡ true
    → trim_space (c ∷ s) ≡ c ∷ s
    → parse_version_constraint (print (constraint op (c ∷ s))) ≡ constraint op (c ∷ s)
unfolding parse_version_constraint print has_prefix
parse_version_constraint-print op_equal c s h p e = ground arith
parse_version_constraint-print op_greater c s h p e =
    rw (parse_version_constraint, e) (ground arith)
parse_version_constraint-print op_greater_equal c s h p e = rw (parse_version_constraint, e) refl
parse_version_constraint-print op_less c s h p e = rw (parse_version_constraint, e) (ground arith)
parse_version_constraint-print op_less_equal c s h p e = rw (parse_version_constraint, e) refl
parse_version_constraint-print op_equal_glob c s h p e = cc
parse_version_constraint-print op_revision_match c s h p e = cc
