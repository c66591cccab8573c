-- ===== src/Pkg/RequiredUse/Pms.antt =====
-- What PMS makes of a REQUIRED_USE expression (docs/pms, 7.3.4 and 8.2), beside the reading of
-- internal/pkg/required_use.go in Syntax: a use-conditional that is an immediate child of an
-- operator's group is a member of the group only where its condition holds, and in some EAPIs an
-- empty group of `||` or `^^` is matched.
use grpm.Base.{
  ℕ, ◌≡◌, refl, ap, ◌∙◌, arith, Bool, true, false, not, ◌&&◌, ◌||◌, List, [], none, some, Text,
  Bool-cases, inl, inr, if◌then◌else◌,
}
use grpm.Pkg.RequiredUse.{bump, validate, not_satisfied}
use grpm.Pkg.RequiredUse.Syntax.{
  Item, flag, all_of, when, Items, no_items, item_then, Node, item, choice, Nodes, no_nodes,
  node_then, literal_holds, nodes_tokens, item_holds, items_count, node_holds, nodes_hold,
  choice_holds,
}
use grpm.Pkg.RequiredUse.Render.{render, validate-render}

module _ (active : List Text) where
  -- An immediate child of an operator's group that counts as a member of it.
  abbrev pub is_member : Item → Bool
  is_member (flag l) = true
  is_member (all_of ns) = true
  is_member (when l ns) = literal_holds active l

  unfoldable pub has_member : Items → Bool
  has_member no_items = false
  has_member (item_then i is) = is_member i || has_member is

  -- `empty_matches` says whether the EAPI is one of those of table 8.6 with matched empty groups.
  module _ (empty_matches : Bool) where
    unfoldable mutual
      pub item_matches : Item → Bool
      item_matches (flag l) = literal_holds active l
      item_matches (all_of ns) = nodes_match ns
      item_matches (when l ns) = not (literal_holds active l) || nodes_match ns

      pub members_matched : Items → ℕ
      members_matched no_items = 0
      members_matched (item_then i is) = bump (is_member i && item_matches i) (members_matched is)

      pub node_matches : Node → Bool
      node_matches (item i) = item_matches i
      node_matches (choice op is) =
          (empty_matches && not (has_member is)) || choice_holds op (members_matched is)

      pub nodes_match : Nodes → Bool
      nodes_match no_nodes = true
      nodes_match (node_then n ns) = node_matches n && nodes_match ns

  -- Outside of conditionals that are off, every child of an operator's group is a member of it, and
  -- no such group is empty.
  unfoldable mutual
    pub item_has_members : Item → Bool
    item_has_members (flag l) = true
    item_has_members (all_of ns) = nodes_have_members ns
    item_has_members (when l ns) = not (literal_holds active l) || nodes_have_members ns

    pub all_members : Items → Bool
    all_members no_items = true
    all_members (item_then i is) = is_member i && (item_has_members i && all_members is)

    pub node_has_members : Node → Bool
    node_has_members (item i) = item_has_members i
    node_has_members (choice op is) = has_member is && all_members is

    pub nodes_have_members : Nodes → Bool
    nodes_have_members no_nodes = true
    nodes_have_members (node_then n ns) = node_has_members n && nodes_have_members ns

not_empty : (e m b : Bool) → m ≡ true → b ≡ ((e && not m) || b)
not_empty e m b h = ground (arith, h)

module _ (active : List Text) (empty_matches : Bool) where
  mutual
    unfolding item_has_members item_holds item_matches has_member

    item_same :
        (i : Item)
        → item_has_members active i ≡ true
        → item_holds active i ≡ item_matches active empty_matches i
    item_same (flag l) h = refl
    item_same (all_of ns) h = nodes_same ns h
    item_same (when l ns) h = elim (Bool-cases (literal_holds active l)) [
      | inl yea ↦
          ap (λ b. not (literal_holds active l) || b) (nodes_same ns (ground (arith, h, yea)))
      | inr nay ↦ ground (arith, nay)
    ]

    items_same :
        (is : Items)
        → all_members active is ≡ true
        → items_count active is ≡ members_matched active empty_matches is
    items_same no_items h = refl
    items_same (item_then i is) h =
        let e = item_same i (ground (arith, h)) in
        let f = items_same is (ground (arith, h)) in
        let m : is_member active i ≡ true = ground (arith, h) in ground (arith, e, f, m)

    node_same :
        (n : Node)
        → node_has_members active n ≡ true
        → node_holds active n ≡ node_matches active empty_matches n
    node_same (item i) h = item_same i h
    node_same (choice op is) h =
        let f = items_same is (ground (arith, h)) in
        let m : has_member active is ≡ true = ground (arith, h) in
        ap (choice_holds op) f ∙ not_empty empty_matches (has_member active is) _ m

    nodes_same :
        (ns : Nodes)
        → nodes_have_members active ns ≡ true
        → nodes_hold active ns ≡ nodes_match active empty_matches ns
    nodes_same no_nodes h = refl
    nodes_same (node_then n ns) h =
        let e = node_same n (ground (arith, h)) in
        let f = nodes_same ns (ground (arith, h)) in ground (arith, e, f)

-- For every expression of flags, negated flags, `all of` groups, conditional groups and the three
-- operators, where no operator stands inside the group of another operator, and every set of enabled
-- flags for which, outside of conditional groups that are off, no operator's group is empty and each
-- conditional group that is an immediate child of one is on, `Validate` on the text of the expression
-- accepts the set exactly if PMS 8.2 matches the expression for it, in EAPIs with matched empty
-- groups and in the others, and otherwise reports that it is not satisfied, and no other error.
pub validate-pms :
    (ns : Nodes) (active : List Text) (empty_matches : Bool)
    → nodes_have_members active ns ≡ true
    → validate (render (nodes_tokens ns [])) active
      ≡ (if nodes_match active empty_matches ns then none else some not_satisfied)
validate-pms ns active empty_matches h =
    validate-render ns active
    ∙ ap (λ b. if b then none else some not_satisfied) (nodes_same active empty_matches ns h)
