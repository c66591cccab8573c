-- ===== src/Pkg/RequiredUse/Render.antt =====
-- From the text of a REQUIRED_USE expression to the verdict of internal/pkg/required_use.go.
use mathlib.Core.List.{reverse, reverse-cons, reverse-reverse}
use grpm.Base.{
  ℕ, suc, ◌*◌, ◌≤◌, ◌≡◌, ◌⊎◌, inl, inr, refl, ◌∙◌, ap, Bool, true, false, not, ◌&&◌, ◌||◌, none,
  some, List, [], ◌∷◌, ◌++◌, arith, length, all, All, append_nil, Text, codes, is_space, trim_left,
  trim_space, ◌==◌, if◌then◌else◌,
}
use grpm.Base.Result.{ok}
use grpm.Pkg.RequiredUse.{
  not_satisfied, Operator, any_of, exactly_one, at_most_one, open_paren, close_paren, flush,
  tokenize_from, tokenize, validate, verdict, parse_and_evaluate,
}
use grpm.Pkg.RequiredUse.Syntax.{
  is_flag_char, is_flag_name, Literal, enabled, disabled, Item, flag, all_of, when, Items, no_items,
  item_then, Node, item, choice, Nodes, no_nodes, node_then, literal_token, operator_token,
  item_head, item_tail, items_tokens, node_head, node_tail, nodes_tokens, nodes_hold,
}
use grpm.Pkg.RequiredUse.Correct.{parse_nodes}

-- The text of a list of tokens: each is followed by a space.
unfoldable pub render : List Text → Text
render [] = []
render (t ∷ ts) = t ++ (b' ' ∷ render ts)

-- A character that the tokenizer keeps in a token.
abbrev is_solid : ℕ → Bool
is_solid c = not (is_space c) && not (c == b'(') && not (c == b')')

trim_left-solid : (s : Text) → all is_solid s ≡ true → trim_left s ≡ s
unfolding trim_left
trim_left-solid [] h = refl
trim_left-solid (c ∷ s) h = ground arith

all-append :
    (s t : Text) → all is_solid s ≡ true → all is_solid t ≡ true → all is_solid (s ++ t) ≡ true
all-append [] t h k = k
all-append (c ∷ s) t h k = ground (arith, all-append s t)

all-reverse : (s : Text) → all is_solid s ≡ true → all is_solid (reverse s) ≡ true
all-reverse [] h = refl
all-reverse (c ∷ s) h =
    rw (reverse-cons c s)
      (all-append (reverse s) (c ∷ []) (all-reverse s (ground arith)) (ground arith))

trim_space-solid : (s : Text) → all is_solid s ≡ true → trim_space s ≡ s
unfolding trim_space
trim_space-solid s h =
    rw (trim_space, trim_left-solid s h, trim_left-solid (reverse s) (all-reverse s h))
      (reverse-reverse s)

append_assoc : (s t u : Text) → (s ++ t) ++ u ≡ s ++ (t ++ u)
append_assoc [] t u = refl
append_assoc (c ∷ s) t u = ap (λ l. c ∷ l) (append_assoc s t u)

solid_paren : (c : ℕ) → is_solid c ≡ true → ((c == b'(') || (c == b')')) ≡ false
solid_paren c h = ground arith

solid_space : (c : ℕ) → is_solid c ≡ true → ((c == b' ') || ((c == 9) || (c == 10))) ≡ false
unfolding is_space
solid_space c h = ground arith

-- The tokenizer gathers a word up to the space behind it.
tokenize_word :
    (current t rest : Text)
    → all is_solid t ≡ true
    → tokenize_from current (t ++ (b' ' ∷ rest)) ≡ flush (current ++ t) ++ tokenize_from [] rest
unfolding tokenize_from
tokenize_word current [] rest h = rw (append_nil current) refl
tokenize_word current (c ∷ t) rest h =
    rw
      (
        tokenize_from,
        solid_paren c (ground arith),
        solid_space c (ground arith),
        tokenize_word (current ++ c ∷ []) t rest (ground arith),
        append_assoc current (c ∷ []) t,
      )
      refl

-- The tokens that the tokenizer finds again.
data IsToken : Text → Type 0 where
  opening : IsToken open_paren
  closing : IsToken close_paren
  word : (c : ℕ) (s : Text) → all is_solid (c ∷ s) ≡ true → IsToken (c ∷ s)

tokenize_token :
    (t rest : Text) → IsToken t → tokenize_from [] (t ++ (b' ' ∷ rest)) ≡ t ∷ tokenize_from [] rest
unfolding tokenize_from flush
tokenize_token _ rest opening = refl
tokenize_token _ rest closing = refl
tokenize_token _ rest (word c s h) =
    tokenize_word [] (c ∷ s) rest h
    ∙ ap (λ t. t ∷ tokenize_from [] rest) (trim_space-solid (c ∷ s) h)

tokenize-render : (ts : List Text) → All IsToken ts → tokenize (render ts) ≡ ts
unfolding tokenize render tokenize_from flush
tokenize-render [] h = refl
tokenize-render (t ∷ ts) (p, q) =
    tokenize_token t (render ts) p ∙ ap (λ l. t ∷ l) (tokenize-render ts q)

flag_char-solid : (c : ℕ) → is_flag_char c ≡ true → is_solid c ≡ true
unfolding is_space
flag_char-solid c h = ground arith

flag_chars-solid : (s : Text) → all is_flag_char s ≡ true → all is_solid s ≡ true
flag_chars-solid [] h = refl
flag_chars-solid (c ∷ s) h = ground (arith, flag_char-solid c, flag_chars-solid s)

name-IsToken : (s r : Text) → is_flag_name s ≡ true → all is_solid r ≡ true → IsToken (s ++ r)
name-IsToken [] r h k = cc
name-IsToken (c ∷ s) r h k = word c (s ++ r) (all-append (c ∷ s) r (flag_chars-solid (c ∷ s) h) k)

name-solid : (s : Text) → is_flag_name s ≡ true → all is_solid s ≡ true
name-solid [] h = cc
name-solid (c ∷ s) h = flag_chars-solid (c ∷ s) h

literal-IsToken : (l : Literal) (r : Text) → all is_solid r ≡ true → IsToken (literal_token l ++ r)
unfolding is_space
literal-IsToken (enabled f) r k = name-IsToken f.name r f.named k
literal-IsToken (disabled f) r k =
    word b'!' (f.name ++ r) (all-append f.name r (name-solid f.name f.named) k)

operator-IsToken : (op : Operator) → IsToken (operator_token op)
unfolding is_space
operator-IsToken any_of = word _ _ refl
operator-IsToken exactly_one = word _ _ refl
operator-IsToken at_most_one = word _ _ refl

question : all is_solid (codes "?") ≡ true
unfolding is_space
question = refl

mutual
  unfolding item_tail

  item-IsToken :
      (i : Item) (k : List Text)
      → All IsToken k
      → IsToken (item_head i) × All IsToken (item_tail i k)
  item-IsToken (flag l) k h = (rw (append_nil (literal_token l)) at (literal-IsToken l [] refl), h)
  item-IsToken (all_of ns) k h = (opening, nodes-IsToken ns (close_paren ∷ k) (closing, h))
  item-IsToken (when l ns) k h = (
    literal-IsToken l (codes "?") question,
    (opening, nodes-IsToken ns (close_paren ∷ k) (closing, h)),
  )

  items-IsToken : (is : Items) (k : List Text) → All IsToken k → All IsToken (items_tokens is k)
  items-IsToken no_items k h = h
  items-IsToken (item_then i is) k h = item-IsToken i (items_tokens is k) (items-IsToken is k h)

  node-IsToken :
      (n : Node) (k : List Text)
      → All IsToken k
      → IsToken (node_head n) × All IsToken (node_tail n k)
  node-IsToken (item i) k h = item-IsToken i k h
  node-IsToken (choice op is) k h =
      (operator-IsToken op, (opening, items-IsToken is (close_paren ∷ k) (closing, h)))

  nodes-IsToken : (ns : Nodes) (k : List Text) → All IsToken k → All IsToken (nodes_tokens ns k)
  nodes-IsToken no_nodes k h = h
  nodes-IsToken (node_then n ns) k h = node-IsToken n (nodes_tokens ns k) (nodes-IsToken ns k h)

-- `Validate` on a text, from what it does with the tokens.
validated :
    (s : Text) (ts active : List Text) (b : Bool)
    → tokenize s ≡ ts
    → parse_and_evaluate (suc (2 * length ts)) active true ts ≡ ok (b, [])
    → (b ≡ true) ⊎ (1 ≤ length s)
    → validate s active ≡ (if b then none else some not_satisfied)
unfolding validate
validated [] ts active b e h (inl yea) = rw yea refl
validated [] ts active b e h (inr k) = absurd (omega arith)
validated (c ∷ s) ts active b e h k = rw (e, h) (said b)
  where
    said : (v : Bool) → verdict (ok (v, [])) ≡ (if v then none else some not_satisfied)
    said true = refl
    said false = refl

long : (t : Text) (s : Text) → 1 ≤ length (t ++ (b' ' ∷ s))
long [] s = omega arith
long (c ∷ t) s = omega arith

some_text :
    (active : List Text) (ns : Nodes)
    → (nodes_hold active ns ≡ true) ⊎ (1 ≤ length (render (nodes_tokens ns [])))
unfolding nodes_tokens render nodes_hold
some_text active no_nodes = inl refl
some_text active (node_then n ns) = inr (long (node_head n) _)

-- For every expression of flags, negated flags, `all of` groups, conditional groups and the three
-- operators, where no operator stands inside the group of another operator, `Validate` on the text
-- of the expression accepts a set of enabled flags exactly if the expression holds for it in
-- the reading of Syntax, and otherwise reports that it is not satisfied, and no other error.
pub validate-render :
    (ns : Nodes) (active : List Text)
    → validate (render (nodes_tokens ns [])) active
      ≡ (if nodes_hold active ns then none else some not_satisfied)
validate-render ns active =
    let ts = nodes_tokens ns [] in
    validated (render ts) ts active (nodes_hold active ns)
      (tokenize-render ts (nodes-IsToken ns [] tt))
      (parse_nodes active (suc (2 * length ts)) true ns none (omega arith)) (some_text active ns)
