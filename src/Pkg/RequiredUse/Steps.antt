-- ===== src/Pkg/RequiredUse/Steps.antt =====
-- One step of the validator of internal/pkg/required_use.go on each kind of token.
use grpm.Base.{
  ◌++◌, ℕ, suc, ◌≡◌, refl, Bool, true, false, ◌&&◌, Option, none, some, List, [], ◌∷◌, Text,
  text_eq, codes,
}
use grpm.Base.Result.{ok}
use grpm.Pkg.RequiredUse.{
  Operator, open_paren, close_paren, parse_and_evaluate, evaluate_token, evaluate_conditional,
  evaluate_group, after_open, skip_group, skipped, bump, count_satisfies,
}
use grpm.Pkg.RequiredUse.Syntax.{Literal, literal_token, literal_holds, operator_token}
use grpm.Pkg.RequiredUse.Tokens.{
  literal-IsPlain, token-IsPlain, literal-unasked, literal-asked, evaluate-literal,
  condition-literal, operator_of-token, operator-not-paren,
}

-- What ends a list of nodes: a closing parenthesis, or the end of the tokens.
abbrev pub ending : Option (List Text) → List Text
ending none = []
ending (some k) = close_paren ∷ k

abbrev pub behind : Option (List Text) → List Text
behind none = []
behind (some k) = k

module _ (active : List Text) where
  pub parse_ending :
      (f : ℕ) (b : Bool) (o : Option (List Text))
      → parse_and_evaluate (suc f) active b (ending o) ≡ ok (b, behind o)
  unfolding parse_and_evaluate text_eq
  parse_ending f b none = refl
  parse_ending f b (some k) = refl

  -- One more node.
  pub parse_step :
      (f : ℕ) (b : Bool) (t : Text) (tokens rest : List Text) (v : Bool)
      → text_eq t close_paren ≡ false
      → evaluate_token f active t tokens ≡ ok (v, rest)
      → parse_and_evaluate (suc f) active b (t ∷ tokens) ≡ parse_and_evaluate f active (b && v) rest
  unfolding parse_and_evaluate
  parse_step f b t tokens rest v h e = rw (parse_and_evaluate, h, e) refl

  pub token_open :
      (f : ℕ) (tokens : List Text)
      → evaluate_token (suc f) active open_paren tokens ≡ parse_and_evaluate f active true tokens
  unfolding parse_and_evaluate text_eq
  token_open f tokens = refl

  pub token_flag :
      (f : ℕ) (l : Literal) (tokens : List Text)
      → evaluate_token (suc f) active (literal_token l) tokens ≡ ok (literal_holds active l, tokens)
  unfolding parse_and_evaluate
  token_flag f l tokens =
      let p = token-IsPlain l in
      rw (evaluate_token, p.not_open, p.no_operator, literal-unasked l, evaluate-literal active l)
        refl

  pub token_when :
      (f : ℕ) (l : Literal) (tokens : List Text)
      → evaluate_token (suc f) active (literal_token l ++ codes "?") tokens
        ≡ evaluate_conditional f active (literal_token l ++ codes "?") tokens
  unfolding parse_and_evaluate
  token_when f l tokens =
      let p = literal-IsPlain l (codes "?") in
      rw (evaluate_token, p.not_open, p.no_operator, literal-asked l) refl

  pub token_choice :
      (f : ℕ) (op : Operator) (tokens : List Text)
      → evaluate_token (suc f) active (operator_token op) (open_paren ∷ tokens)
        ≡ evaluate_group f active op 0 tokens
  unfolding parse_and_evaluate after_open text_eq
  token_choice f op tokens =
      let (a, b) = operator-not-paren op in rw (evaluate_token, a, operator_of-token op) refl

  pub when_met :
      (f : ℕ) (l : Literal) (tokens : List Text)
      → literal_holds active l ≡ true
      → evaluate_conditional (suc f) active (literal_token l ++ codes "?") (open_paren ∷ tokens)
        ≡ parse_and_evaluate f active true tokens
  unfolding parse_and_evaluate after_open text_eq
  when_met f l tokens h = rw (evaluate_conditional, condition-literal active l, h) refl

  pub when_skipped :
      (f : ℕ) (l : Literal) (tokens : List Text)
      → literal_holds active l ≡ false
      → evaluate_conditional (suc f) active (literal_token l ++ codes "?") (open_paren ∷ tokens)
        ≡ skipped (skip_group 1 tokens)
  unfolding parse_and_evaluate after_open text_eq
  when_skipped f l tokens h = rw (evaluate_conditional, condition-literal active l, h) refl

  pub group_end :
      (f : ℕ) (op : Operator) (n : ℕ) (k : List Text)
      → evaluate_group (suc f) active op n (close_paren ∷ k) ≡ ok (count_satisfies op n, k)
  unfolding parse_and_evaluate text_eq
  group_end f op n k = refl

  pub group_flag :
      (f : ℕ) (op : Operator) (n : ℕ) (l : Literal) (tokens : List Text)
      → evaluate_group (suc f) active op n (literal_token l ∷ tokens)
        ≡ evaluate_group f active op (bump (literal_holds active l) n) tokens
  unfolding parse_and_evaluate
  group_flag f op n l tokens =
      let p = token-IsPlain l in
      rw (evaluate_group, p.not_close, p.not_open, literal-unasked l, evaluate-literal active l)
        refl

  pub group_open :
      (f : ℕ) (op : Operator) (n : ℕ) (tokens rest : List Text) (v : Bool)
      → parse_and_evaluate f active true tokens ≡ ok (v, rest)
      → evaluate_group (suc f) active op n (open_paren ∷ tokens)
        ≡ evaluate_group f active op (bump v n) rest
  unfolding parse_and_evaluate text_eq
  group_open f op n tokens rest v e = rw (evaluate_group, e) refl

  pub group_when :
      (f : ℕ) (op : Operator) (n : ℕ) (l : Literal) (tokens rest : List Text) (v : Bool)
      → evaluate_conditional f active (literal_token l ++ codes "?") tokens ≡ ok (v, rest)
      → evaluate_group (suc f) active op n ((literal_token l ++ codes "?") ∷ tokens)
        ≡ evaluate_group f active op (bump v n) rest
  unfolding parse_and_evaluate
  group_when f op n l tokens rest v e =
      let p = literal-IsPlain l (codes "?") in
      rw (evaluate_group, p.not_close, p.not_open, literal-asked l, e) refl
