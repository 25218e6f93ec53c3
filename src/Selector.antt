-- ===== src/Selector.antt =====
-- selector.go: selector nodes that explore recursively up to a stop link. Nodes, links and keys of
-- go-ipld-prime are the record `Ipld`; a nil node or link is `none`.
pub mod Ipld
pub mod Built
pub mod Trees
pub mod Tests
use go_legs.Prelude.{
  ℕ, ℤ, pos, Bool, true, false, not, Option, none, some, List, [], ◌∷◌, ◌++◌, ite, ℕ_discrete,
}
use Ipld.{IpldOps, Lookup, found, not_exists, failed, KeyKind, string_key, other_kind, broken}

pub data RecursionLimit : Type 0 where
  limit_none : RecursionLimit
  limit_depth : ℤ → RecursionLimit
  -- Any other mode.
  limit_other : RecursionLimit

abbrev prepend {ℓ} : {A : Type ℓ} → A → Option (List A) → Option (List A)
prepend x none = none
prepend x (some xs) = some (x ∷ xs)

module _ {Node Link Key : Type 0} (ipld : IpldOps Node Link Key) where
  abbrev entry : Key → Node → Node × Node
  entry k n = (ipld.of_key k, n)

  -- The value of the entry `SelectorKey_Limit`. `none` is a panic.
  unfoldable pub limit_node : RecursionLimit → Option Node
  limit_node (limit_depth d) = some (ipld.build_map (entry ipld.key_depth (ipld.of_int d) ∷ []))
  limit_node limit_none = some (ipld.build_map (entry ipld.key_none (ipld.build_map []) ∷ []))
  limit_node limit_other = none

  -- The entry `SelectorKey_StopAt`, if there is a stop link.
  unfoldable pub stop_entries : Option Link → List (Node × Node)
  stop_entries none = []
  stop_entries (some stop) =
      entry ipld.key_stop_at (ipld.build_map (entry ipld.key_link (ipld.of_link stop) ∷ [])) ∷ []

  abbrev or_default : Option Node → Node
  or_default none = ipld.explore_all
  or_default (some sequence) = sequence

  -- `ExploreRecursiveWithStopNode`. `none` is a panic.
  unfoldable pub explore_recursive_with_stop_node :
      RecursionLimit → Option Node → Option Link → Option Node
  unfolding limit_node stop_entries
  explore_recursive_with_stop_node limit sequence stop = elim (limit_node limit) [
    | none ↦ none
    | some ln ↦ some (
        ipld.build_map (
          entry ipld.key_explore_recursive (
            ipld.build_map (
              entry ipld.key_limit ln
              ∷ entry ipld.key_sequence (or_default sequence)
              ∷ stop_entries stop))
          ∷ []))
  ]

  -- `ExploreRecursiveWithStop`, with the node of the sequence.
  unfoldable pub explore_recursive_with_stop : RecursionLimit → Node → Option Link → Option Node
  unfolding explore_recursive_with_stop_node
  explore_recursive_with_stop limit sequence stop =
      explore_recursive_with_stop_node limit (some sequence) stop

  unfoldable pub leg_selector : RecursionLimit → Option Link → Option Node
  unfolding explore_recursive_with_stop
  leg_selector limit stop = explore_recursive_with_stop limit ipld.explore_all stop

  -- `LookupByString`, of a node that an error may stand for.
  abbrev at_key : Option Node → Key → Option Node
  at_key none k = none
  at_key (some n) k = elim (ipld.lookup_by_string n k) [
    | found m ↦ some m
    | not_exists ↦ none
    | failed ↦ none
  ]

  unfoldable pub get_stop_node : Option Node → Option Link
  get_stop_node sel =
      elim (at_key (at_key (at_key sel ipld.key_explore_recursive) ipld.key_stop_at)
        ipld.key_link) [ none ↦ none | some n ↦ ipld.as_link n ]

  -- The part of `getRecursionLimit` behind the node of the limit.
  unfoldable pub read_limit : Node → Option RecursionLimit
  read_limit n = elim (ipld.lookup_by_string n ipld.key_depth) [
    | found dln ↦ elim (ipld.as_int dln) [ none ↦ none | some d ↦ some (limit_depth d) ]
    | not_exists ↦ elim (ipld.lookup_by_string n ipld.key_none) [
      | found _ ↦ some limit_none
      | not_exists ↦ none
      | failed ↦ none
    ]
    | failed ↦ none
  ]

  unfoldable pub get_recursion_limit : Option Node → Option RecursionLimit
  unfolding read_limit
  get_recursion_limit sel = elim (at_key (at_key sel ipld.key_explore_recursive) ipld.key_limit) [
    | none ↦ none
    | some n ↦ read_limit n
  ]

  -- The loop of `withRecursionLimit` over the entries, except those of the limit. `none` is an error.
  unfoldable pub copy_entries : List (Node × Node) → Option (List (Node × Node))
  copy_entries [] = some []
  copy_entries ((k, v) ∷ es) =
      let rest = copy_entries es in
      elim (ipld.key_kind k) [
        | broken ↦ none
        | string_key s ↦ ite (ipld.same_key s ipld.key_limit) rest (prepend (k, v) rest)
        | other_kind ↦ prepend (k, v) rest
      ]

  -- The node that `withRecursionLimit` builds from the node of the recursion.
  unfoldable pub relimited : Node → RecursionLimit → Option (Option Node)
  unfolding limit_node copy_entries
  relimited ern rl = elim (limit_node rl) [
    | none ↦ none
    | some ln ↦ elim (ipld.map_entries ern) [
      | none ↦ some none
      | some es ↦ elim (copy_entries es) [
        | none ↦ some none
        | some rest ↦ some (
            some (
              ipld.build_map (
                entry ipld.key_explore_recursive (ipld.build_map (entry ipld.key_limit ln ∷ rest))
                ∷ [])))
      ]
    ]
  ]

  -- `withRecursionLimit`; the outer `none` is a panic, the inner one the result `nil, false`.
  unfoldable pub with_recursion_limit : Option Node → RecursionLimit → Option (Option Node)
  unfolding relimited
  with_recursion_limit none rl = some none
  with_recursion_limit (some sel) rl =
      ite (ℕ_discrete (ipld.size sel) 1)
        (elim (at_key (some sel) ipld.key_explore_recursive) [
          | none ↦ some none
          | some ern ↦ relimited ern rl
        ])
        (some none)
