-- ===== src/Pkg/RequiredUse/Skip.antt =====
-- About `skipGroup` of internal/pkg/required_use.go on the tokens of an expression.
use grpm.Base.{ℕ, suc, ◌≡◌, refl, ◌∙◌, false, some, List, ◌∷◌, Text, text_eq, codes}
use grpm.Pkg.RequiredUse.{open_paren, close_paren, skip_group}
use grpm.Pkg.RequiredUse.Syntax.{
  Item, flag, all_of, when, Items, no_items, item_then, Node, item, choice, Nodes, no_nodes,
  node_then, item_head, item_tail, items_tokens, node_head, node_tail, nodes_tokens,
}
use grpm.Pkg.RequiredUse.Tokens.{literal-IsPlain, token-IsPlain, operator-not-paren}

skip_open :
    (d : ℕ) (k : List Text) → skip_group (suc d) (open_paren ∷ k) ≡ skip_group (suc (suc d)) k
unfolding skip_group text_eq
skip_open d k = refl

skip_close : (d : ℕ) (k : List Text) → skip_group (suc d) (close_paren ∷ k) ≡ skip_group d k
unfolding skip_group text_eq
skip_close d k = refl

pub skip_last : (k : List Text) → skip_group 1 (close_paren ∷ k) ≡ some k
unfolding skip_group text_eq
skip_last k = refl

skip_other :
    (d : ℕ) (t : Text) (k : List Text)
    → text_eq t open_paren ≡ false
    → text_eq t close_paren ≡ false
    → skip_group (suc d) (t ∷ k) ≡ skip_group (suc d) k
unfolding skip_group
skip_other d t k h e = rw (skip_group, h, e) refl

mutual
  unfolding item_tail

  skip_item :
      (d : ℕ) (i : Item) (k : List Text)
      → skip_group (suc d) (item_head i ∷ item_tail i k) ≡ skip_group (suc d) k
  skip_item d (flag l) k = let p = token-IsPlain l in skip_other d _ _ p.not_open p.not_close
  skip_item d (all_of ns) k =
      skip_open d _ ∙ skip_nodes (suc d) ns (close_paren ∷ k) ∙ skip_close (suc d) k
  skip_item d (when l ns) k =
      let p = literal-IsPlain l (codes "?") in
      skip_other d _ _ p.not_open p.not_close
      ∙ skip_open d _
      ∙ skip_nodes (suc d) ns (close_paren ∷ k)
      ∙ skip_close (suc d) k

  skip_items :
      (d : ℕ) (is : Items) (k : List Text)
      → skip_group (suc d) (items_tokens is k) ≡ skip_group (suc d) k
  skip_items d no_items k = refl
  skip_items d (item_then i is) k = skip_item d i (items_tokens is k) ∙ skip_items d is k

  skip_node :
      (d : ℕ) (n : Node) (k : List Text)
      → skip_group (suc d) (node_head n ∷ node_tail n k) ≡ skip_group (suc d) k
  skip_node d (item i) k = skip_item d i k
  skip_node d (choice op is) k =
      let (a, b) = operator-not-paren op in
      skip_other d _ _ a b
      ∙ skip_open d _
      ∙ skip_items (suc d) is (close_paren ∷ k)
      ∙ skip_close (suc d) k

  pub skip_nodes :
      (d : ℕ) (ns : Nodes) (k : List Text)
      → skip_group (suc d) (nodes_tokens ns k) ≡ skip_group (suc d) k
  skip_nodes d no_nodes k = refl
  skip_nodes d (node_then n ns) k = skip_node d n (nodes_tokens ns k) ∙ skip_nodes d ns k
