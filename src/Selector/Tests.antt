-- ===== src/Selector/Tests.antt =====
-- selector.go on concrete nodes: trees of IPLD data whose keys and links are numbers.
use go_legs.Prelude.{pos, ◌≡◌, refl, none, some, [], ◌∷◌}
use mathlib.Core.Option
use go_legs.Selector.{
  limit_none, limit_depth, explore_recursive_with_stop_node, leg_selector, get_stop_node,
  get_recursion_limit, with_recursion_limit,
}
use go_legs.Selector.Trees.{Tree, text, number, cid, trees, trees-IsIpld, build}
use go_legs.Selector.Built.{read-explore_recursive, with_recursion_limit-explore_recursive}

abbrev pub up_to_7 : Tree
unfolding build
up_to_7 = build (
    (
      text 0,
      build (
          (text 1, build ((text 2, number (pos 5)) ∷ []))
          ∷ (text 4, text 9)
          ∷ (text 5, build ((text 6, cid 7) ∷ []))
          ∷ []),
    )
    ∷ [])

pub up_to_7-built :
    explore_recursive_with_stop_node trees (limit_depth (pos 5)) none (some 7) ≡ some up_to_7
unfolding explore_recursive_with_stop_node build
up_to_7-built = refl

read-explore_recursive_example :
    (get_recursion_limit trees (some up_to_7) ≡ some (limit_depth (pos 5)))
    × (get_stop_node trees (some up_to_7) ≡ some 7)
read-explore_recursive_example =
    read-explore_recursive trees-IsIpld (limit_depth (pos 5)) none (some 7) up_to_7 up_to_7-built

with_recursion_limit-explore_recursive_example :
    with_recursion_limit trees (some up_to_7) limit_none
    ≡ Option.map some (explore_recursive_with_stop_node trees limit_none none (some 7))
with_recursion_limit-explore_recursive_example =
    with_recursion_limit-explore_recursive trees-IsIpld (limit_depth (pos 5)) limit_none none
      (some 7) up_to_7 up_to_7-built

leg_selector-up_to_7 : leg_selector trees (limit_depth (pos 5)) (some 7) ≡ some up_to_7
unfolding leg_selector build
leg_selector-up_to_7 = refl
