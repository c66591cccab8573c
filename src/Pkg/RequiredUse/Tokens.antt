-- ===== src/Pkg/RequiredUse/Tokens.antt =====
-- The tokens of REQUIRED_USE flags and conditions, as internal/pkg/required_use.go reads them.
use grpm.Base.{
  append_nil, zero, suc, ℕ, ◌≡◌, refl, true, false, none, some, List, [], ◌∷◌, ◌++◌, arith, all,
  Text, codes, text_eq, has_prefix, has_suffix, trim_suffix,
}
use grpm.Base.Assoc.{contains}
use grpm.Pkg.RequiredUse.{
  Operator, any_of, exactly_one, at_most_one, operator_of, evaluate_simple_flag, is_enabled,
  condition_met, open_paren, close_paren, count_satisfies,
}
use grpm.Pkg.RequiredUse.Syntax.{
  is_flag_char, is_flag_name, Literal, enabled, disabled, literal_token, literal_holds,
  choice_holds, operator_token,
}

-- The token of a flag, of a negated one, or of a condition.
pub record IsPlain (t : Text) : Type 0 where
  pub not_open : text_eq t open_paren ≡ false
  pub not_close : text_eq t close_paren ≡ false
  pub no_operator : operator_of t ≡ none

has_suffix-question : (s : Text) → all is_flag_char s ≡ true → has_suffix s (codes "?") ≡ false
unfolding has_suffix text_eq
has_suffix-question [] h = refl
has_suffix-question (c ∷ []) h = ground arith
has_suffix-question (c ∷ d ∷ s) h = ground (arith, has_suffix-question (d ∷ s))

asked : (s : Text) → has_suffix (s ++ codes "?") (codes "?") ≡ true
unfolding has_suffix text_eq
asked [] = refl
asked (c ∷ s) = ground (arith, asked s)

trimmed : (s : Text) → trim_suffix (s ++ codes "?") (codes "?") ≡ s
unfolding trim_suffix text_eq
trimmed [] = refl
trimmed (c ∷ []) = ground (arith)
trimmed (c ∷ d ∷ s) = ground (arith, trimmed (d ∷ s))

name-IsPlain : (s r : Text) → is_flag_name s ≡ true → IsPlain (s ++ r)
unfolding text_eq operator_of
name-IsPlain [] r h = cc
name-IsPlain (c ∷ s) r h = record {
  not_open = ground arith;
  not_close = ground arith;
  no_operator = ground arith;
}

pub literal-IsPlain : (l : Literal) (r : Text) → IsPlain (literal_token l ++ r)
unfolding text_eq operator_of
literal-IsPlain (enabled f) r = name-IsPlain f.name r f.named
literal-IsPlain (disabled f) r = record {
  not_open = ground arith;
  not_close = ground arith;
  no_operator = ground arith;
}

pub token-IsPlain : (l : Literal) → IsPlain (literal_token l)
token-IsPlain l = rw (append_nil (literal_token l)) at (literal-IsPlain l [])

name-unasked : (s : Text) → is_flag_name s ≡ true → has_suffix s (codes "?") ≡ false
name-unasked [] h = cc
name-unasked (c ∷ s) h = has_suffix-question (c ∷ s) h

pub literal-unasked : (l : Literal) → has_suffix (literal_token l) (codes "?") ≡ false
unfolding has_suffix text_eq
literal-unasked (enabled f) = name-unasked f.name f.named
literal-unasked (disabled f) = ground (arith, name-unasked f.name f.named)

pub literal-asked : (l : Literal) → has_suffix (literal_token l ++ codes "?") (codes "?") ≡ true
literal-asked l = asked (literal_token l)

evaluate-name :
    (active : List Text) (s : Text)
    → is_flag_name s ≡ true
    → evaluate_simple_flag active s ≡ contains s active
unfolding evaluate_simple_flag is_enabled has_prefix
evaluate-name active [] h = cc
evaluate-name active (c ∷ s) h = ground arith

pub evaluate-literal :
    (active : List Text) (l : Literal)
    → evaluate_simple_flag active (literal_token l) ≡ literal_holds active l
unfolding evaluate_simple_flag is_enabled has_prefix
evaluate-literal active (enabled f) = evaluate-name active f.name f.named
evaluate-literal active (disabled f) = refl

pub condition-literal :
    (active : List Text) (l : Literal)
    → condition_met active (literal_token l ++ codes "?") ≡ literal_holds active l
unfolding condition_met
condition-literal active l = rw (trimmed (literal_token l)) (evaluate-literal active l)

pub operator_of-token : (op : Operator) → operator_of (operator_token op) ≡ some op
unfolding operator_of text_eq
operator_of-token any_of = refl
operator_of-token exactly_one = refl
operator_of-token at_most_one = refl

pub operator-not-paren :
    (op : Operator)
    → (text_eq (operator_token op) open_paren ≡ false)
      × (text_eq (operator_token op) close_paren ≡ false)
unfolding text_eq
operator-not-paren any_of = (refl, refl)
operator-not-paren exactly_one = (refl, refl)
operator-not-paren at_most_one = (refl, refl)

pub choice_holds-count_satisfies :
    (op : Operator) (n : ℕ) → count_satisfies op n ≡ choice_holds op n
unfolding count_satisfies
choice_holds-count_satisfies any_of zero = refl
choice_holds-count_satisfies any_of (suc n) = ground arith
choice_holds-count_satisfies exactly_one n = refl
choice_holds-count_satisfies at_most_one zero = refl
choice_holds-count_satisfies at_most_one (suc n) = ground arith
