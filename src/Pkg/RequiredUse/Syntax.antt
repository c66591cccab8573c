-- ===== src/Pkg/RequiredUse/Syntax.antt =====
-- REQUIRED_USE expressions as trees, their tokens, and how internal/pkg/required_use.go reads them: a
-- conditional group whose condition fails holds, also as the child of an operator's group. An operator stands outside of the
-- groups of other operators.
use grpm.Base.{
  ℕ, zero, suc, ◌≡◌, Bool, true, false, not, ◌&&◌, ◌||◌, List, [], ◌∷◌, ◌++◌, all, leb, ◌==◌, Text,
  codes, is_digit,
}
use grpm.Base.Assoc.{contains}
use grpm.Pkg.RequiredUse.{Operator, any_of, exactly_one, at_most_one, open_paren, close_paren, bump}

-- The characters of the name of a USE flag, of PMS 3.1.4.
abbrev pub is_flag_char : ℕ → Bool
is_flag_char c =
    is_digit c
    || (leb b'A' c && leb c b'Z')
    || (leb b'a' c && leb c b'z')
    || (c == b'_')
    || (c == b'@')
    || (c == b'+')
    || (c == b'-')

abbrev pub is_flag_name : Text → Bool
is_flag_name [] = false
is_flag_name (c ∷ s) = is_flag_char c && all is_flag_char s

pub record Flag : Type 0 where
  pub name : Text
  pub named : is_flag_name name ≡ true

pub data Literal : Type 0 where
  enabled disabled : Flag → Literal

mutual
  pub data Item : Type 0 where
    flag : Literal → Item
    all_of : Nodes → Item
    when : Literal → Nodes → Item

  pub data Items : Type 0 where
    no_items : Items
    item_then : Item → Items → Items

  pub data Node : Type 0 where
    item : Item → Node
    choice : Operator → Items → Node

  pub data Nodes : Type 0 where
    no_nodes : Nodes
    node_then : Node → Nodes → Nodes

abbrev pub literal_token : Literal → Text
literal_token (enabled f) = f.name
literal_token (disabled f) = b'!' ∷ f.name

abbrev pub operator_token : Operator → Text
operator_token any_of = codes "||"
operator_token exactly_one = codes "^^"
operator_token at_most_one = codes "??"

-- The first token of a node, the tokens behind it, and all tokens, each before further tokens.
abbrev pub item_head : Item → Text
item_head (flag l) = literal_token l
item_head (all_of ns) = open_paren
item_head (when l ns) = literal_token l ++ codes "?"

abbrev pub node_head : Node → Text
node_head (item i) = item_head i
node_head (choice op is) = operator_token op

unfoldable mutual
  pub item_tail : Item → List Text → List Text
  item_tail (flag l) k = k
  item_tail (all_of ns) k = nodes_tokens ns (close_paren ∷ k)
  item_tail (when l ns) k = open_paren ∷ nodes_tokens ns (close_paren ∷ k)

  pub items_tokens : Items → List Text → List Text
  items_tokens no_items k = k
  items_tokens (item_then i is) k = item_head i ∷ item_tail i (items_tokens is k)

  pub node_tail : Node → List Text → List Text
  node_tail (item i) k = item_tail i k
  node_tail (choice op is) k = open_paren ∷ items_tokens is (close_paren ∷ k)

  pub nodes_tokens : Nodes → List Text → List Text
  nodes_tokens no_nodes k = k
  nodes_tokens (node_then n ns) k = node_head n ∷ node_tail n (nodes_tokens ns k)

-- What an operator asks of the number of members of its group that hold.
abbrev pub choice_holds : Operator → ℕ → Bool
choice_holds any_of zero = false
choice_holds any_of (suc n) = true
choice_holds exactly_one n = n == 1
choice_holds at_most_one zero = true
choice_holds at_most_one (suc n) = n == 0

module _ (active : List Text) where
  abbrev pub literal_holds : Literal → Bool
  literal_holds (enabled f) = contains f.name active
  literal_holds (disabled f) = not (contains f.name active)

  unfoldable mutual
    pub item_holds : Item → Bool
    item_holds (flag l) = literal_holds l
    item_holds (all_of ns) = nodes_hold ns
    item_holds (when l ns) = not (literal_holds l) || nodes_hold ns

    pub items_count : Items → ℕ
    items_count no_items = 0
    items_count (item_then i is) = bump (item_holds i) (items_count is)

    pub node_holds : Node → Bool
    node_holds (item i) = item_holds i
    node_holds (choice op is) = choice_holds op (items_count is)

    pub nodes_hold : Nodes → Bool
    nodes_hold no_nodes = true
    nodes_hold (node_then n ns) = node_holds n && nodes_hold ns
