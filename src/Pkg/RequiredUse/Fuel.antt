-- ===== src/Pkg/RequiredUse/Fuel.antt =====
-- About the fuel of `Validate` of internal/pkg/required_use.go: twice the number of tokens, and one.
use grpm.Base.{
  ℕ, zero, suc, ◌+◌, ◌*◌, ◌≤◌, ◌≡◌, ◌≢◌, Bool, true, false, ◌&&◌, Option, none, some, List, [], ◌∷◌,
  arith, length, if_rule, Text, codes, text_eq, has_suffix, if◌then◌else◌, Option-cases, inl, inr,
}
use grpm.Base.Result.{Result, ok, err, ◌>>=◌}
use grpm.Pkg.RequiredUse.{
  RequiredUseError, operator_without_group, conditional_without_group, unbalanced, not_satisfied,
  out_of_fuel, Evaluation, open_paren, close_paren, condition_met, skip_group, Operator,
  operator_of, bump, skipped, after_open, by_operator, parse_and_evaluate, evaluate_token,
  evaluate_conditional, evaluate_group, evaluate_simple_flag, verdict, validate, tokenize,
}

abbrev pub IsReal : RequiredUseError → Type 0
IsReal out_of_fuel = ⊥
IsReal _ = Unit

-- The evaluation did not run out of fuel, and leaves at most `n` tokens.
abbrev pub Ends : ℕ → Evaluation → Type 0
Ends n (ok (b, rest)) = length rest ≤ n
Ends n (err e) = IsReal e

weaken : (m n : ℕ) (r : Evaluation) → Ends m r → m ≤ n → Ends n r
weaken m n (ok (b, rest)) h k = omega arith
weaken m n (err e) h k = h

Ends-bind :
    (m n : ℕ) (r : Evaluation) (f : Bool × List Text → Evaluation)
    → Ends m r
    → ((b : Bool) (rest : List Text) → length rest ≤ m → Ends n (f (b, rest)))
    → Ends n (r >>= f)
Ends-bind m n (ok (b, rest)) f h k = k b rest h
Ends-bind m n (err out_of_fuel) f h k = h
Ends-bind m n (err unbalanced) f h k = tt
Ends-bind m n (err not_satisfied) f h k = tt
Ends-bind m n (err (operator_without_group t)) f h k = tt
Ends-bind m n (err (conditional_without_group t)) f h k = tt

Ends-after_open :
    (n : ℕ) (e : RequiredUseError) (tokens : List Text) (f : List Text → Evaluation)
    → IsReal e
    → ((rest : List Text) → suc (length rest) ≤ length tokens → Ends n (f rest))
    → Ends n (after_open e tokens >>= f)
unfolding after_open
Ends-after_open n e [] f h k = h
Ends-after_open n e (t ∷ tokens) f h k =
    if_rule (λ (r : Result RequiredUseError (List Text)). Ends n (r >>= f)) (text_eq t open_paren) _
      _ (λ _. k tokens (omega arith)) (λ _. h)

length-skip_group :
    (depth : ℕ) (tokens rest : List Text)
    → skip_group depth tokens ≡ some rest
    → length rest ≤ length tokens
unfolding skip_group
length-skip_group zero tokens rest h = ground arith
length-skip_group (suc depth) [] rest h = cc
length-skip_group (suc depth) (t ∷ tokens) rest h = omega (
  arith,
  length-skip_group
      (if text_eq t open_paren
        then suc (suc depth)
        else if text_eq t close_paren
        then depth
        else suc depth)
      tokens rest h,
)

Ends-by_operator :
    (n : ℕ) (o : Option Operator) (g : Operator → Evaluation) (e : Evaluation)
    → ((op : Operator) → Ends n (g op))
    → Ends n e
    → Ends n (by_operator o g e)
Ends-by_operator n none g e h k = k
Ends-by_operator n (some op) g e h k = h op

Ends-skipped :
    (tokens : List Text) (n : ℕ) → length tokens ≤ n → Ends n (skipped (skip_group 1 tokens))
Ends-skipped tokens n h = elim (Option-cases (skip_group 1 tokens)) [
  | inl e ↦ rw e tt
  | inr (rest, e) ↦ rw e (omega (arith, h, length-skip_group 1 tokens rest e))
]

module _ (active : List Text) where
  mutual
    unfolding parse_and_evaluate

    pub parse-Ends :
        (f : ℕ) (b : Bool) (tokens : List Text)
        → 2 * length tokens + 1 ≤ f
        → Ends (length tokens) (parse_and_evaluate f active b tokens)
    parse-Ends zero b tokens h = absurd (omega arith)
    parse-Ends (suc f) b [] h = omega arith
    parse-Ends (suc f) b (t ∷ tokens) h =
        if_rule (Ends (suc (length tokens))) (text_eq t close_paren) _ _ (λ _. omega arith)
          λ _.
            Ends-bind (length tokens) _ (evaluate_token f active t tokens) _
              (token-Ends f t tokens (omega arith))
              λ b' rest k. weaken _ _ _ (parse-Ends f (b && b') rest (omega arith)) (omega arith)

    pub token-Ends :
        (f : ℕ) (t : Text) (tokens : List Text)
        → 2 * length tokens + 2 ≤ f
        → Ends (length tokens) (evaluate_token f active t tokens)
    token-Ends zero t tokens h = absurd (omega arith)
    token-Ends (suc f) t tokens h =
        if_rule (Ends (length tokens)) (text_eq t open_paren) _ _
          (λ _. parse-Ends f true tokens (omega arith))
          λ _.
            Ends-by_operator _ (operator_of t) _ _
              (λ op.
                Ends-after_open _ (operator_without_group t) tokens _ tt
                  λ rest k. weaken _ _ _ (group-Ends f op 0 rest (omega arith)) (omega arith))
              (if_rule (Ends (length tokens)) (has_suffix t (codes "?")) _ _
                (λ _. conditional-Ends f t tokens (omega arith)) (λ _. omega arith))

    pub conditional-Ends :
        (f : ℕ) (t : Text) (tokens : List Text)
        → 2 * length tokens + 1 ≤ f
        → Ends (length tokens) (evaluate_conditional f active t tokens)
    conditional-Ends zero t tokens h = absurd (omega arith)
    conditional-Ends (suc f) t tokens h =
        Ends-after_open _ (conditional_without_group t) tokens _ tt λ rest k.
          if_rule (Ends (length tokens)) (condition_met active t) _ _
            (λ _. weaken _ _ _ (parse-Ends f true rest (omega arith)) (omega arith))
            (λ _. Ends-skipped rest (length tokens) (omega arith))

    pub group-Ends :
        (f : ℕ) (op : Operator) (n : ℕ) (tokens : List Text)
        → 2 * length tokens + 1 ≤ f
        → Ends (length tokens) (evaluate_group f active op n tokens)
    group-Ends zero op n tokens h = absurd (omega arith)
    group-Ends (suc f) op n [] h = omega arith
    group-Ends (suc f) op n (t ∷ tokens) h =
        if_rule (Ends (suc (length tokens))) (text_eq t close_paren) _ _ (λ _. omega arith)
          λ _.
            if_rule (Ends (suc (length tokens))) (text_eq t open_paren) _ _
              (λ _.
                Ends-bind (length tokens) _ (parse_and_evaluate f active true tokens) _
                  (parse-Ends f true tokens (omega arith))
                  λ b rest k.
                    weaken _ _ _ (group-Ends f op (bump b n) rest (omega arith)) (omega arith))
              λ _.
                if_rule (Ends (suc (length tokens))) (has_suffix t (codes "?")) _ _
                  (λ _.
                    Ends-bind (length tokens) _ (evaluate_conditional f active t tokens) _
                      (conditional-Ends f t tokens (omega arith))
                      λ b rest k.
                        weaken _ _ _ (group-Ends f op (bump b n) rest (omega arith)) (omega arith))
                  (λ _.
                    weaken _ _ _
                      (group-Ends f op (bump (evaluate_simple_flag active t) n) tokens
                        (omega arith))
                      (omega arith))

verdict-real : (n : ℕ) (r : Evaluation) → Ends n r → verdict r ≢ some out_of_fuel
verdict-real n (ok (true, rest)) h e = cc
verdict-real n (ok (false, rest)) h e = cc
verdict-real n (err out_of_fuel) h e = h
verdict-real n (err unbalanced) h e = cc
verdict-real n (err not_satisfied) h e = cc
verdict-real n (err (operator_without_group t)) h e = cc
verdict-real n (err (conditional_without_group t)) h e = cc

-- Validate ends on every text and every list of enabled flags: the fuel of the model never runs
-- out.
pub validate-ne-out_of_fuel :
    (expr : Text) (enabled : List Text) → validate expr enabled ≢ some out_of_fuel
unfolding validate
validate-ne-out_of_fuel [] enabled = λ e. cc
validate-ne-out_of_fuel (c ∷ expr) enabled =
    let tokens = tokenize (c ∷ expr) in
    verdict-real (length tokens) (parse_and_evaluate (suc (2 * length tokens)) enabled true tokens)
      (parse-Ends enabled (suc (2 * length tokens)) true tokens (omega arith))
