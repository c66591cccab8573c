-- ===== src/Pkg/RequiredUse.antt =====
-- internal/pkg/required_use.go: the validator of REQUIRED_USE expressions. Where the source passes
-- the list of tokens and an index, the model passes the tokens from that index on. The recursion
-- takes fuel (Fuel).
pub mod Fuel
pub mod Syntax
pub mod Tokens
pub mod Skip
pub mod Steps
pub mod Correct
pub mod Render
pub mod Pms
mod Tests
use grpm.Base.{
  ℕ, zero, suc, ◌+◌, ◌*◌, Bool, true, false, not, ◌&&◌, Option, none, some, List, [], ◌∷◌, ◌++◌,
  length, drop, ltb, leb, ◌==◌, if◌then◌else◌, ◌||◌, Text, codes, text_eq, has_prefix, has_suffix,
  trim_suffix, trim_space,
}
use grpm.Base.Assoc.{contains}
use grpm.Base.Result.{Result, ok, err, ◌>>=◌}

-- The errors; `out_of_fuel` is the model's, and does not occur.
pub data RequiredUseError : Type 0 where
  operator_without_group conditional_without_group : Text → RequiredUseError
  unbalanced not_satisfied out_of_fuel : RequiredUseError

abbrev pub Evaluation : Type 0
Evaluation = Result RequiredUseError (Bool × List Text)

abbrev pub open_paren : Text
open_paren = b'(' ∷ []

abbrev pub close_paren : Text
close_paren = b')' ∷ []

-- What is left of the builder becomes a token, unless it is empty.
unfoldable pub flush : Text → List Text
flush [] = []
flush (c ∷ s) = trim_space (c ∷ s) ∷ []

-- The loop of `tokenize`; `current` is the builder.
unfoldable pub tokenize_from : Text → Text → List Text
unfolding flush
tokenize_from current [] = flush current
tokenize_from current (c ∷ s) =
    let fresh = tokenize_from [] s in
    let longer = tokenize_from (current ++ c ∷ []) s in
    if c == b'(' || c == b')'
    then flush current ++ (c ∷ []) ∷ fresh
    else if c == b' ' || (c == 9 || c == 10)
    then flush current ++ fresh
    else longer

unfoldable pub tokenize : Text → List Text
unfolding tokenize_from
tokenize expr = tokenize_from [] expr

-- The map of enabled flags.
unfoldable pub is_enabled : List Text → Text → Bool
is_enabled active flag = contains flag active

unfoldable pub evaluate_simple_flag : List Text → Text → Bool
unfolding is_enabled
evaluate_simple_flag active token =
    if has_prefix token (codes "!")
    then not (is_enabled active (drop 1 token))
    else is_enabled active token

-- The condition of `flag?` or `!flag?`.
unfoldable pub condition_met : List Text → Text → Bool
unfolding evaluate_simple_flag
condition_met active token = evaluate_simple_flag active (trim_suffix token (codes "?"))

-- `skipGroup`, at a depth.
unfoldable pub skip_group : ℕ → List Text → Option (List Text)
skip_group zero tokens = some tokens
skip_group (suc depth) [] = none
skip_group (suc depth) (t ∷ tokens) =
    skip_group
      (if text_eq t open_paren
        then suc (suc depth)
        else if text_eq t close_paren
        then depth
        else suc depth)
      tokens

pub data Operator : Type 0 where
  any_of exactly_one at_most_one : Operator

-- The map `operators`.
unfoldable pub operator_of : Text → Option Operator
operator_of t =
    if text_eq t (codes "||")
    then some any_of
    else if text_eq t (codes "^^")
    then some exactly_one
    else if text_eq t (codes "??")
    then some at_most_one
    else none

-- `g` of the operator, if the token is one, and `e` if it is not.
abbrev pub by_operator : Option Operator → (Operator → Evaluation) → Evaluation → Evaluation
by_operator none g e = e
by_operator (some op) g e = g op

-- What `evaluateAnyOf`, `evaluateExactlyOne` and `evaluateAtMostOne` ask of the number of satisfied
-- members; their loops are the same.
unfoldable pub count_satisfies : Operator → ℕ → Bool
count_satisfies any_of n = ltb 0 n
count_satisfies exactly_one n = n == 1
count_satisfies at_most_one n = leb n 1

abbrev pub bump : Bool → ℕ → ℕ
bump b n = if b then suc n else n

-- `true`, and the rest after the group.
abbrev pub skipped : Option (List Text) → Evaluation
skipped none = err unbalanced
skipped (some rest) = ok (true, rest)

-- The tokens behind an opening parenthesis, or the error.
unfoldable pub after_open : RequiredUseError → List Text → Result RequiredUseError (List Text)
after_open e [] = err e
after_open e (t ∷ tokens) = if text_eq t open_paren then ok tokens else err e

unfoldable mutual
  -- The loop of `parseAndEvaluate`.
  pub parse_and_evaluate : ℕ → List Text → Bool → List Text → Evaluation
  parse_and_evaluate zero active all_satisfied tokens = err out_of_fuel
  parse_and_evaluate (suc f) active all_satisfied [] = ok (all_satisfied, [])
  parse_and_evaluate (suc f) active all_satisfied (t ∷ tokens) =
      let go = evaluate_token f active t tokens >>= λ r.
      parse_and_evaluate f active (all_satisfied && r.0) r.1 in
      if text_eq t close_paren then ok (all_satisfied, tokens) else go

  -- `evaluateToken` with `handleOperator`.
  pub evaluate_token : ℕ → List Text → Text → List Text → Evaluation
  evaluate_token zero active t tokens = err out_of_fuel
  evaluate_token (suc f) active t tokens =
      let inner = parse_and_evaluate f active true tokens in
      let conditional = evaluate_conditional f active t tokens in
      if text_eq t open_paren
      then inner
      else by_operator (operator_of t)
          (λ op. after_open (operator_without_group t) tokens >>= λ rest.
            evaluate_group f active op 0 rest)
          (if has_suffix t (codes "?")
            then conditional
            else ok (evaluate_simple_flag active t, tokens))

  -- `evaluateConditional`, and `handleConditionalInParse`, which does the same.
  pub evaluate_conditional : ℕ → List Text → Text → List Text → Evaluation
  evaluate_conditional zero active t tokens = err out_of_fuel
  evaluate_conditional (suc f) active t tokens =
      after_open (conditional_without_group t) tokens >>= λ rest.
      let inner = parse_and_evaluate f active true rest in
      if condition_met active t then inner else skipped (skip_group 1 rest)

  -- The loop of `evaluateAnyOf`, `evaluateExactlyOne` and `evaluateAtMostOne`.
  pub evaluate_group : ℕ → List Text → Operator → ℕ → List Text → Evaluation
  evaluate_group zero active op n tokens = err out_of_fuel
  evaluate_group (suc f) active op n [] = ok (count_satisfies op n, [])
  evaluate_group (suc f) active op n (t ∷ tokens) =
      let nested = parse_and_evaluate f active true tokens >>= λ r.
      evaluate_group f active op (bump r.0 n) r.1 in
      let conditional = evaluate_conditional f active t tokens >>= λ r.
      evaluate_group f active op (bump r.0 n) r.1 in
      let simple = evaluate_group f active op (bump (evaluate_simple_flag active t) n) tokens in
      if text_eq t close_paren
      then ok (count_satisfies op n, tokens)
      else if text_eq t open_paren
      then nested
      else if has_suffix t (codes "?")
      then conditional
      else simple

abbrev pub verdict : Evaluation → Option RequiredUseError
verdict (ok (true, rest)) = none
verdict (ok (false, rest)) = some not_satisfied
verdict (err e) = some e

-- `Validate`: `none` is the nil error.
unfoldable pub validate : Text → List Text → Option RequiredUseError
unfolding tokenize parse_and_evaluate skip_group condition_met operator_of count_satisfies
    after_open evaluate_simple_flag
validate [] enabled = none
validate (c ∷ expr) enabled =
    let tokens = tokenize (c ∷ expr) in
    verdict (parse_and_evaluate (suc (2 * length tokens)) enabled true tokens)
