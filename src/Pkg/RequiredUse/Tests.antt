-- ===== src/Pkg/RequiredUse/Tests.antt =====
-- Runs of the validator of internal/pkg/required_use.go.
use grpm.Base.Assoc.{contains}
use grpm.Base.{
  trim_suffix, text_eq, trim_space, has_suffix, has_prefix, ◌≡◌, ◌≢◌, refl, true, false, none, some,
  [], ◌∷◌, codes, if◌then◌else◌,
}
use grpm.Pkg.RequiredUse.{
  not_satisfied, out_of_fuel, operator_without_group, validate, any_of, exactly_one,
}
use grpm.Pkg.RequiredUse.Syntax.{
  Flag, enabled, disabled, flag, all_of, when, no_items, item_then, item, choice, Nodes, no_nodes,
  node_then, nodes_tokens,
}
use grpm.Pkg.RequiredUse.Render.{render}
use grpm.Pkg.RequiredUse.Pms.{has_member, nodes_match, nodes_have_members, validate-pms}
use grpm.Pkg.RequiredUse.Fuel.{validate-ne-out_of_fuel}

abbrev ssl : Flag
ssl = record { name = codes "ssl"; named = refl }

abbrev gnutls : Flag
gnutls = record { name = codes "gnutls"; named = refl }

abbrev curl : Flag
curl = record { name = codes "curl"; named = refl }

-- `curl? ( ssl ) ^^ ( gnutls !ssl ( curl ssl ) )`
abbrev tree : Nodes
tree = node_then (item (when (enabled curl) (node_then (item (flag (enabled ssl))) no_nodes))) (
    node_then
      (choice exactly_one (
        item_then (flag (enabled gnutls)) (
          item_then (flag (disabled ssl)) (
            item_then
              (all_of (
                node_then (item (flag (enabled curl)))
                  (node_then (item (flag (enabled ssl))) no_nodes)))
              no_items))))
      no_nodes)

printed : render (nodes_tokens tree []) ≡ codes "curl? ( ssl ) ^^ ( gnutls !ssl ( curl ssl ) ) "
unfolding render nodes_tokens
printed = refl

accepted :
    validate (codes "curl? ( ssl ) ^^ ( gnutls !ssl )") (codes "ssl" ∷ codes "gnutls" ∷ []) ≡ none
unfolding validate text_eq trim_space has_suffix has_prefix contains trim_suffix
accepted = refl

refused : validate (codes "|| ( a b ) !c") (codes "c" ∷ codes "a" ∷ []) ≡ some not_satisfied
unfolding validate text_eq trim_space has_suffix has_prefix contains trim_suffix
refused = refl

bare_operator : validate (codes "|| a") [] ≡ some (operator_without_group (codes "||"))
unfolding validate text_eq trim_space has_suffix has_prefix contains trim_suffix
bare_operator = refl

-- An operator inside the group of another one is taken for a flag that is not enabled, and its own
-- group for one that asks for all: `^^ ( a b )` would hold here.
nested_operator : validate (codes "|| ( ^^ ( a b ) )") (codes "a" ∷ []) ≡ some not_satisfied
unfolding validate text_eq trim_space has_suffix has_prefix contains trim_suffix
nested_operator = refl

-- Behind a closing parenthesis without an opening one, nothing is read.
stray_parenthesis : validate (codes ") a") [] ≡ none
unfolding validate text_eq trim_space has_suffix has_prefix contains trim_suffix
stray_parenthesis = refl

-- A conditional group that is off counts as a satisfied child of `||`, where PMS leaves it out.
abbrev conditional_child : Nodes
conditional_child =
    node_then
      (choice any_of (
        item_then (when (enabled ssl) (node_then (item (flag (enabled curl))) no_nodes))
          (item_then (flag (enabled gnutls)) no_items)))
      no_nodes

conditional_child_accepted :
    (validate (codes "|| ( ssl? ( curl ) gnutls )") [] ≡ none)
    × (nodes_match [] false conditional_child ≡ false)
    × (nodes_match [] true conditional_child ≡ false)
unfolding validate text_eq trim_space has_suffix has_prefix contains trim_suffix nodes_match
    has_member
conditional_child_accepted = (refl, refl, refl)

-- An empty `||` group is refused, where EAPIs 0 to 6 match it.
empty_group :
    (validate (codes "|| ( )") [] ≡ some not_satisfied)
    × (nodes_match [] true (node_then (choice any_of no_items) no_nodes) ≡ true)
unfolding validate text_eq trim_space has_suffix has_prefix contains trim_suffix nodes_match
    has_member
empty_group = (refl, refl)

tree_has_members : nodes_have_members (codes "curl" ∷ codes "ssl" ∷ []) tree ≡ true
unfolding nodes_have_members has_member contains text_eq
tree_has_members = refl

validate-pms_example :
    validate (render (nodes_tokens tree [])) (codes "curl" ∷ codes "ssl" ∷ []) ≡ (
      if nodes_match (codes "curl" ∷ codes "ssl" ∷ []) false tree then none else some not_satisfied)
validate-pms_example = validate-pms tree (codes "curl" ∷ codes "ssl" ∷ []) false tree_has_members

validate-ne-out_of_fuel_example : validate (codes "a? ( b c )") (codes "a" ∷ []) ≢ some out_of_fuel
validate-ne-out_of_fuel_example = validate-ne-out_of_fuel (codes "a? ( b c )") (codes "a" ∷ [])
