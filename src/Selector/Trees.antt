-- ===== src/Selector/Trees.antt =====
-- Concrete nodes for selector.go: trees of IPLD data whose keys and links are numbers.
use go_legs.Prelude.{
  ℕ, suc, ℤ, ◌≡◌, refl, ap, Option, none, some, List, [], ◌∷◌, ite, length, ℕ_discrete, arith, inl,
  inr, Option-cases,
}
use go_legs.Selector.Ipld.{
  IpldOps, IsIpld, Lookup, found, not_exists, failed, KeyKind, string_key, other_kind, lookup_in,
}

pub data Tree : Type 0 where
  text : ℕ → Tree
  number : ℤ → Tree
  cid : ℕ → Tree
  empty : Tree
  more : Tree → Tree → Tree → Tree

unfoldable pub key_of : Tree → KeyKind ℕ
key_of (text s) = string_key s
key_of (number z) = other_kind
key_of (cid l) = other_kind
key_of empty = other_kind
key_of (more k v n) = other_kind

unfoldable pub lookup : Tree → ℕ → Lookup Tree
unfolding key_of
lookup empty k = not_exists
lookup (more j v n) k = elim (key_of j) [
  | string_key s ↦ ite (ℕ_discrete s k) (found v) (lookup n k)
  | _ ↦ lookup n k
]
lookup (text s) k = failed
lookup (number z) k = failed
lookup (cid l) k = failed

unfoldable pub entries : Tree → Option (List (Tree × Tree))
entries empty = some []
entries (more k v n) = elim (entries n) [ none ↦ none | some es ↦ some ((k, v) ∷ es) ]
entries (text s) = none
entries (number z) = none
entries (cid l) = none

unfoldable pub build : List (Tree × Tree) → Tree
build [] = empty
build ((k, v) ∷ es) = more k v (build es)

unfoldable pub size_of : Tree → ℕ
size_of (more k v n) = suc (size_of n)
size_of empty = 0
size_of (text s) = 0
size_of (number z) = 0
size_of (cid l) = 0

unfoldable pub link_of : Tree → Option ℕ
link_of (cid l) = some l
link_of empty = none
link_of (more k v n) = none
link_of (text s) = none
link_of (number z) = none

unfoldable pub int_of : Tree → Option ℤ
int_of (number z) = some z
int_of (cid l) = none
int_of empty = none
int_of (more k v n) = none
int_of (text s) = none

abbrev pub trees : IpldOps Tree ℕ ℕ
trees = record {
  same_key = ℕ_discrete;
  lookup_by_string = lookup;
  as_link = link_of;
  as_int = int_of;
  size = size_of;
  map_entries = entries;
  key_kind = key_of;
  of_key = text;
  of_int = number;
  of_link = cid;
  build_map = build;
  explore_all = text 9;
  key_explore_recursive = 0;
  key_limit = 1;
  key_depth = 2;
  key_none = 3;
  key_sequence = 4;
  key_stop_at = 5;
  key_link = 6;
}

entries-more :
    (j v n : Tree) (es : List (Tree × Tree))
    → entries (more j v n) ≡ some es
    → (fs : List (Tree × Tree)) × (entries n ≡ some fs) × (es ≡ (j, v) ∷ fs)
unfolding entries
entries-more j v n es p = elim (Option-cases (entries n)) [
  | inl q ↦ absurd (ground (arith, p, q))
  | inr (fs, q) ↦ (fs, q, ground (arith, p, q))
]

lookup_more :
    (j v n : Tree) (fs : List (Tree × Tree)) (k : ℕ)
    → lookup n k ≡ lookup_in trees fs k
    → lookup (more j v n) k ≡ lookup_in trees ((j, v) ∷ fs) k
unfolding lookup lookup_in key_of
lookup_more (text s) v n fs k rest = ground (arith, rest)
lookup_more (number z) v n fs k rest = rest
lookup_more (cid l) v n fs k rest = rest
lookup_more empty v n fs k rest = rest
lookup_more (more _ _ _) v n fs k rest = rest

lookup-entries :
    (n : Tree) (es : List (Tree × Tree)) (k : ℕ)
    → entries n ≡ some es
    → lookup n k ≡ lookup_in trees es k
unfolding lookup entries lookup_in
lookup-entries empty es k p = ground (arith, p)
lookup-entries (more j v n) es k p =
    let (fs, q, e) = entries-more j v n es p in
    rw e (lookup_more j v n fs k (lookup-entries n fs k q))
lookup-entries (text s) es k p = cc
lookup-entries (number z) es k p = cc
lookup-entries (cid l) es k p = cc

entries-build : (es : List (Tree × Tree)) → entries (build es) ≡ some es
unfolding entries build
entries-build [] = refl
entries-build ((k, v) ∷ es) = rw (entries-build es)

size-build : (es : List (Tree × Tree)) → size_of (build es) ≡ length es
unfolding size_of build
size-build [] = refl
size-build ((k, v) ∷ es) = ap suc (size-build es)

pub trees-IsIpld : IsIpld trees
unfolding key_of link_of int_of
trees-IsIpld = record {
  lookup-entries = lookup-entries;
  entries-build = entries-build;
  size-build = size-build;
  kind-of_key = λ k. refl;
  as_int-of_int = λ d. refl;
  as_link-of_link = λ l. refl;
  limit-ne-sequence = omega arith;
  limit-ne-stop_at = omega arith;
  sequence-ne-stop_at = omega arith;
  depth-ne-none = omega arith;
}
