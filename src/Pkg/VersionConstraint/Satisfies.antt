-- ===== src/Pkg/VersionConstraint/Satisfies.antt =====
-- Which versions the constraints of internal/pkg/constraint.go accept.
use grpm.Base.{
  append_nil, ℕ, ◌≡◌, refl, ap, ◌∙◌, ◌⊎◌, inl, inr, ◌≢◌, true, false, Option, none, some, [], ◌∷◌,
  ◌++◌, arith, length, get_elem?, Text, codes, text_eq, text_eq_iff, text_eq_refl, has_prefix, all,
  is_digit, Bool-cases, drop, ◌&&◌, ◌||◌, Bool,
}
use grpm.Base.Result.{ok}
use grpm.Pkg.Version.{Version, is_less_than_or_equal, compare_to}
use grpm.Pkg.Version.Parse.{parse_version}
use grpm.Pkg.Version.Parse.Sound.{parse_version_sound}
use grpm.Pkg.Version.Total.{less_than_or_equal_trans}
use grpm.Pkg.VersionConstraint.{
  VersionOperator, op_equal, op_greater, op_greater_equal, op_less, op_less_equal, op_equal_glob,
  op_revision_match, VersionConstraint, constraint, Regexes, compare_version_texts, is_separator,
  satisfies_glob, satisfies_operator, satisfies,
}

pub has_prefix-append : (p s : Text) → has_prefix (p ++ s) p ≡ true
unfolding has_prefix
has_prefix-append [] s = refl
has_prefix-append (c ∷ p) s = ground (arith, has_prefix-append p s)

-- A text with a prefix is that prefix and a rest.
prefix_rest : (s p : Text) → has_prefix s p ≡ true → (r : Text) × (s ≡ p ++ r)
unfolding has_prefix
prefix_rest s [] h = (s, refl)
prefix_rest [] (c ∷ p) h = cc
prefix_rest (d ∷ s) (c ∷ p) h = let (r, e) = prefix_rest s p (ground arith) in (r, ground arith)

get_elem?-behind : (p r : Text) → get_elem? (p ++ r) (length p) ≡ get_elem? r 0
get_elem?-behind [] r = refl
get_elem?-behind (c ∷ p) r = get_elem?-behind p r

longer-ne : (p : Text) (c : ℕ) (r : Text) → text_eq (p ++ c ∷ r) p ≡ false
unfolding text_eq
longer-ne [] c r = refl
longer-ne (d ∷ p) c r = ground (arith, longer-ne p c r)

-- The three ways a version and the text of a glob are related.
glob_view :
    (s p : Text) → (s ≡ p) ⊎ (((c : ℕ) × (r : Text) × (s ≡ p ++ c ∷ r)) ⊎ (has_prefix s p ≡ false))
glob_view s p = elim (Bool-cases (has_prefix s p)) [
  | inr other ↦ inr (inr other)
  | inl found ↦ let (r, e) = prefix_rest s p found in behind r e
]
  where
    behind :
        (r : Text)
        → s ≡ p ++ r
        → (s ≡ p) ⊎ (((c : ℕ) × (r : Text) × (s ≡ p ++ c ∷ r)) ⊎ (has_prefix s p ≡ false))
    behind [] e = inl (e ∙ append_nil p)
    behind (c ∷ r) e = inr (inl (c, r, e))

glob_equal : (p : Text) → satisfies_glob p p ≡ some true
unfolding satisfies_glob
glob_equal p = ground (arith, text_eq_refl p)

glob_longer : (p : Text) (c : ℕ) (r : Text) → satisfies_glob (p ++ c ∷ r) p ≡ some (is_separator c)
unfolding satisfies_glob
glob_longer p c r =
    rw (longer-ne p c r, has_prefix-append p (c ∷ r), get_elem?-behind p (c ∷ r)) refl

glob_other : (s p : Text) → has_prefix s p ≡ false → satisfies_glob s p ≡ some false
unfolding satisfies_glob
glob_other s p h = ground (arith, text_eq_iff s p, rw (append_nil p) at (has_prefix-append p []))

glob_total : (s p : Text) → satisfies_glob s p ≢ none
glob_total s p e = elim (glob_view s p) [
  | inl same ↦ ground (arith, rw (same) at e, glob_equal p)
  | inr (inl (c, r, longer)) ↦ ground (arith, rw (longer) at e, glob_longer p c r)
  | inr (inr other) ↦ ground (arith, e, glob_other s p other)
]

operator_total :
    (r : Regexes) (op : VersionOperator) (version wanted : Text)
    → satisfies_operator r op version wanted ≢ none
unfolding satisfies_operator
operator_total r op_equal version wanted e = cc
operator_total r op_greater version wanted e = cc
operator_total r op_greater_equal version wanted e = cc
operator_total r op_less version wanted e = cc
operator_total r op_less_equal version wanted e = cc
operator_total r op_equal_glob version wanted e = glob_total version wanted e
operator_total r op_revision_match version wanted e = cc

-- `Satisfies` never indexes past the end of a version: it returns a value for every constraint and
-- every version.
pub satisfies-ne-none :
    (r : Regexes) (vc : Option VersionConstraint) (version : Text) → satisfies r vc version ≢ none
unfolding satisfies
satisfies-ne-none r none version = λ e. cc
satisfies-ne-none r (some vc) version = operator_total r vc.operator version vc.version

-- What may follow the text of a glob: a dot, an underscore or a dash.
abbrev pub Separates : ℕ → Type 0
Separates c = (c ≡ b'.') ⊎ ((c ≡ b'_') ⊎ (c ≡ b'-'))

-- Somewhere `-r` stands with digits only, or nothing, behind it.
unfoldable pub has_revision : Text → Bool
unfolding has_prefix
has_revision [] = false
has_revision (c ∷ s) =
    (has_prefix (c ∷ s) (codes "-r") && all is_digit (drop 2 (c ∷ s))) || has_revision s

abbrev joined : Option (Text × Text) → Text
joined none = []
joined (some (before, after)) = before ++ codes "-r" ++ after

satisfies_less_equal :
    (r : Regexes) (u v : Text) (pu pv : Version)
    → parse_version r.versions u ≡ ok pu
    → parse_version r.versions v ≡ ok pv
    → satisfies r (constraint op_less_equal v) u ≡ some (is_less_than_or_equal pu pv)
unfolding satisfies satisfies_operator compare_version_texts is_less_than_or_equal compare_to
satisfies_less_equal r u v pu pv eu ev = rw (compare_version_texts, eu, ev) refl

-- Of three versions that parse, `<=` goes through the middle one: if `u` satisfies `<=v` and `v`
-- satisfies `<=w`, then `u` satisfies `<=w`.
satisfies_less_equal_trans :
    (r : Regexes) (u v w : Text) (pu pv pw : Version)
    → parse_version r.versions u ≡ ok pu
    → parse_version r.versions v ≡ ok pv
    → parse_version r.versions w ≡ ok pw
    → satisfies r (constraint op_less_equal v) u ≡ some true
    → satisfies r (constraint op_less_equal w) v ≡ some true
    → satisfies r (constraint op_less_equal w) u ≡ some true
satisfies_less_equal_trans r u v w pu pv pw eu ev ew h k =
    let (_, qu, _, _, _) = parse_version_sound r.versions u pu eu in
    let (_, qv, _, _, _) = parse_version_sound r.versions v pv ev in
    let (_, qw, _, _, _) = parse_version_sound r.versions w pw ew in
    let uv = satisfies_less_equal r u v pu pv eu ev in
    let vw = satisfies_less_equal r v w pv pw ev ew in
    satisfies_less_equal r u w pu pw eu ew
    ∙ ap some
        (less_than_or_equal_trans pu pv pw qu qv qw (ground (arith, uv, h)) (ground (arith, vw, k)))
