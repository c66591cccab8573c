-- ===== src/Pkg/RequiredUse/Correct.antt =====
-- The validator of internal/pkg/required_use.go on the tokens of an expression, against the meaning
-- of the expression.
use grpm.Base.{
  ℕ, zero, suc, ◌+◌, ◌*◌, ◌≤◌, ◌≡◌, refl, sym, ◌∙◌, ap, Bool, true, false, not, ◌&&◌, ◌||◌, Option,
  some, List, ◌∷◌, ◌++◌, arith, length, Text, text_eq, codes, Bool-cases, inl, inr,
}
use grpm.Base.Result.{ok}
use grpm.Pkg.RequiredUse.{
  Operator, Evaluation, close_paren, parse_and_evaluate, evaluate_token, evaluate_conditional,
  evaluate_group, skipped, bump, count_satisfies,
}
use grpm.Pkg.RequiredUse.Fuel.{Ends, token-Ends}
use grpm.Pkg.RequiredUse.Syntax.{
  Literal, Item, flag, all_of, when, Items, no_items, item_then, Node, item, choice, Nodes,
  no_nodes, node_then, literal_token, literal_holds, item_head, item_tail, items_tokens, node_head,
  node_tail, nodes_tokens, item_holds, items_count, node_holds, nodes_hold, choice_holds,
}
use grpm.Pkg.RequiredUse.Tokens.{
  literal-IsPlain, token-IsPlain, operator-not-paren, choice_holds-count_satisfies,
}
use grpm.Pkg.RequiredUse.Skip.{skip_nodes, skip_last}
use grpm.Pkg.RequiredUse.Steps.{
  ending, behind, parse_ending, parse_step, token_open, token_flag, token_when, token_choice,
  when_met, when_skipped, group_end, group_flag, group_open, group_when,
}

item_not_close : (i : Item) → text_eq (item_head i) close_paren ≡ false
unfolding text_eq
item_not_close (flag l) = let p = token-IsPlain l in p.not_close
item_not_close (all_of ns) = refl
item_not_close (when l ns) = let p = literal-IsPlain l (codes "?") in p.not_close

node_not_close : (n : Node) → text_eq (node_head n) close_paren ≡ false
node_not_close (item i) = item_not_close i
node_not_close (choice op is) = (operator-not-paren op).1

-- What an evaluation leaves is no longer than what it began with.
shorter :
    (n : ℕ) (r : Evaluation) (v : Bool) (rest : List Text)
    → Ends n r
    → r ≡ ok (v, rest)
    → length rest ≤ n
shorter n r v rest h e = rw (e) at h

and_true : (b : Bool) → b ≡ (b && true)
and_true true = refl
and_true false = refl

and_assoc : (a b c : Bool) → ((a && b) && c) ≡ (a && (b && c))
and_assoc true b c = refl
and_assoc false b c = refl

bump_add : (b : Bool) (n m : ℕ) → bump b n + m ≡ n + bump b m
bump_add true n m = omega arith
bump_add false n m = refl

add_zero : (m : ℕ) → m ≡ m + 0
add_zero m = omega arith

zero_add : (m : ℕ) → 0 + m ≡ m
zero_add m = omega arith

judged :
    (op : Operator) (m : ℕ) (k : List Text)
    → ◌≡◌ {A = Evaluation} (ok (count_satisfies op (0 + m), k)) (ok (choice_holds op m, k))
judged op m k =
    ap (λ v. ok (v, k)) (ap (count_satisfies op) (zero_add m) ∙ choice_holds-count_satisfies op m)

counted :
    (op : Operator) (v : Bool) (n m : ℕ) (k : List Text)
    → ◌≡◌ {A = Evaluation}
        (ok (count_satisfies op (bump v n + m), k))
        (ok (count_satisfies op (n + bump v m), k))
counted op v n m k = ap (λ c. ok (count_satisfies op c, k)) (bump_add v n m)

module _ (active : List Text) where
  -- An item leaves no more tokens than stand behind its first one.
  left :
      (f : ℕ) (i : Item) (r : List Text) (v : Bool)
      → 2 * length (item_tail i r) + 2 ≤ f
      → evaluate_token f active (item_head i) (item_tail i r) ≡ ok (v, r)
      → length r ≤ length (item_tail i r)
  left f i r v h e = shorter _ _ v r (token-Ends active f (item_head i) (item_tail i r) h) e

  mutual
    unfolding item_tail item_holds

    pub parse_nodes :
        (f : ℕ) (b : Bool) (ns : Nodes) (o : Option (List Text))
        → 2 * length (nodes_tokens ns (ending o)) + 1 ≤ f
        → parse_and_evaluate f active b (nodes_tokens ns (ending o))
          ≡ ok (b && nodes_hold active ns, behind o)
    parse_nodes zero b ns o h = absurd (omega arith)
    parse_nodes (suc f) b no_nodes o h =
        parse_ending active f b o ∙ ap (λ v. ok (v, behind o)) (and_true b)
    parse_nodes (suc f) b (node_then n ns) o h =
        let k = nodes_tokens ns (ending o) in
        let v = node_holds active n in
        let e = token_node f n k (omega arith) in
        let s =
          shorter _ _ v k (token-Ends active f (node_head n) (node_tail n k) (omega arith)) e in
        parse_step active f b (node_head n) (node_tail n k) k v (node_not_close n) e
        ∙ parse_nodes f (b && v) ns o (omega arith)
        ∙ ap (λ v. ok (v, behind o)) (and_assoc b v (nodes_hold active ns))

    token_node :
        (f : ℕ) (n : Node) (k : List Text)
        → 2 * length (node_tail n k) + 2 ≤ f
        → evaluate_token f active (node_head n) (node_tail n k) ≡ ok (node_holds active n, k)
    token_node zero n k h = absurd (omega arith)
    token_node (suc f) (choice op is) k h =
        token_choice active f op (items_tokens is (close_paren ∷ k))
        ∙ group_items f op 0 is k (omega arith)
        ∙ judged op (items_count active is) k
    token_node (suc f) (item (flag l)) k h = token_flag active f l k
    token_node (suc f) (item (all_of ns)) k h =
        token_open active f (nodes_tokens ns (close_paren ∷ k))
        ∙ parse_nodes f true ns (some k) (omega arith)
    token_node (suc f) (item (when l ns)) k h =
        token_when active f l _ ∙ conditional f l ns k (omega arith)

    conditional :
        (f : ℕ) (l : Literal) (ns : Nodes) (k : List Text)
        → 2 * length (item_tail (when l ns) k) + 1 ≤ f
        → evaluate_conditional f active (literal_token l ++ codes "?") (item_tail (when l ns) k)
          ≡ ok (item_holds active (when l ns), k)
    conditional zero l ns k h = absurd (omega arith)
    conditional (suc f) l ns k h = elim (Bool-cases (literal_holds active l)) [
      | inl yea ↦
          when_met active f l (nodes_tokens ns (close_paren ∷ k)) yea
          ∙ parse_nodes f true ns (some k) (omega arith)
          ∙ ap (λ v. ok (not v || nodes_hold active ns, k)) (sym yea)
      | inr nay ↦
          when_skipped active f l (nodes_tokens ns (close_paren ∷ k)) nay
          ∙ ap skipped (skip_nodes 0 ns (close_paren ∷ k) ∙ skip_last k)
          ∙ ap (λ v. ok (not v || nodes_hold active ns, k)) (sym nay)
    ]

    group_items :
        (f : ℕ) (op : Operator) (n : ℕ) (is : Items) (k : List Text)
        → 2 * length (items_tokens is (close_paren ∷ k)) + 1 ≤ f
        → evaluate_group f active op n (items_tokens is (close_paren ∷ k))
          ≡ ok (count_satisfies op (n + items_count active is), k)
    group_items zero op n is k h = absurd (omega arith)
    group_items (suc f) op n no_items k h =
        group_end active f op n k ∙ ap (λ m. ok (count_satisfies op m, k)) (add_zero n)
    group_items (suc f) op n (item_then (flag l) is) k h =
        let r = items_tokens is (close_paren ∷ k) in
        let v = item_holds active (flag l) in
        let e = token_node f (item (flag l)) r (omega arith) in
        let s = left f (flag l) r v (omega arith) e in
        group_flag active f op n l r
        ∙ group_items f op (bump v n) is k (omega arith)
        ∙ counted op v n (items_count active is) k
    group_items (suc f) op n (item_then (all_of ns) is) k h =
        let r = items_tokens is (close_paren ∷ k) in
        let v = item_holds active (all_of ns) in
        let e = token_node f (item (all_of ns)) r (omega arith) in
        let s = left f (all_of ns) r v (omega arith) e in
        group_open active f op n (nodes_tokens ns (close_paren ∷ r)) r v
          (parse_nodes f true ns (some r) (omega arith))
        ∙ group_items f op (bump v n) is k (omega arith)
        ∙ counted op v n (items_count active is) k
    group_items (suc f) op n (item_then (when l ns) is) k h =
        let r = items_tokens is (close_paren ∷ k) in
        let v = item_holds active (when l ns) in
        let e = token_node f (item (when l ns)) r (omega arith) in
        let s = left f (when l ns) r v (omega arith) e in
        group_when active f op n l _ r v (conditional f l ns r (omega arith))
        ∙ group_items f op (bump v n) is k (omega arith)
        ∙ counted op v n (items_count active is) k
