-- ===== src/Selector/Ipld.antt =====
-- What selector.go uses of go-ipld-prime: nodes of the IPLD data model, the keys of selectors, and
-- what is documented of them.
use go_legs.Prelude.{ℕ, ℤ, ◌≡◌, ◌≢◌, Option, some, List, [], ◌∷◌, length, ite}

pub data Lookup (Node : Type 0) : Type 0 where
  found : Node → Lookup Node
  not_exists : Lookup Node
  failed : Lookup Node

-- The kind of a key: a string that can be read or not, or another kind.
pub data KeyKind (Key : Type 0) : Type 0 where
  string_key : Key → KeyKind Key
  other_kind : KeyKind Key
  broken : KeyKind Key

pub record IpldOps (Node Link Key : Type 0) : Type 0 where
  pub same_key : Discrete Key
  pub lookup_by_string : Node → Key → Lookup Node
  pub as_link : Node → Option Link
  pub as_int : Node → Option ℤ
  -- `Length`; 0 stands also for the -1 of a node that has none.
  pub size : Node → ℕ
  -- The entries that a `MapIterator` yields; `none` if one of its steps fails.
  pub map_entries : Node → Option (List (Node × Node))
  pub key_kind : Node → KeyKind Key
  pub of_key : Key → Node
  pub of_int : ℤ → Node
  pub of_link : Link → Node
  -- `fluent.MustBuildMap`, of entries with different keys.
  pub build_map : List (Node × Node) → Node
  -- `ssb.ExploreAll(ssb.ExploreRecursiveEdge()).Node()`
  pub explore_all : Node
  -- The keys of selectors.
  pub key_explore_recursive : Key
  pub key_limit : Key
  pub key_depth : Key
  pub key_none : Key
  pub key_sequence : Key
  pub key_stop_at : Key
  pub key_link : Key

module _ {Node Link Key : Type 0} (ipld : IpldOps Node Link Key) where
  -- The value of the first entry with a key.
  unfoldable pub lookup_in : List (Node × Node) → Key → Lookup Node
  lookup_in [] k = not_exists
  lookup_in ((j, v) ∷ es) k = elim (ipld.key_kind j) [
    | string_key s ↦ ite (ipld.same_key s k) (found v) (lookup_in es k)
    | other_kind ↦ lookup_in es k
    | broken ↦ lookup_in es k
  ]

  pub record IsIpld : Type 0 where
    pub lookup-entries :
        (n : Node) (es : List (Node × Node)) (k : Key)
        → ipld.map_entries n ≡ some es
        → ipld.lookup_by_string n k ≡ lookup_in es k
    pub entries-build : (es : List (Node × Node)) → ipld.map_entries (ipld.build_map es) ≡ some es
    pub size-build : (es : List (Node × Node)) → ipld.size (ipld.build_map es) ≡ length es
    pub kind-of_key : (k : Key) → ipld.key_kind (ipld.of_key k) ≡ string_key k
    pub as_int-of_int : (d : ℤ) → ipld.as_int (ipld.of_int d) ≡ some d
    pub as_link-of_link : (l : Link) → ipld.as_link (ipld.of_link l) ≡ some l
    pub limit-ne-sequence : ipld.key_limit ≢ ipld.key_sequence
    pub limit-ne-stop_at : ipld.key_limit ≢ ipld.key_stop_at
    pub sequence-ne-stop_at : ipld.key_sequence ≢ ipld.key_stop_at
    pub depth-ne-none : ipld.key_depth ≢ ipld.key_none
