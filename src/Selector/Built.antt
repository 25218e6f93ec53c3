-- ===== src/Selector/Built.antt =====
-- selector.go: what is read back from a selector that `ExploreRecursiveWithStopNode` built.
use go_legs.Prelude.{
  ℤ, ◌≡◌, ◌≢◌, ap, ◌∙◌, Option, none, some, List, [], ◌∷◌, arith, Option-cases, inl, inr,
}
use mathlib.Core.Option
use go_legs.Selector.Ipld.{IpldOps, IsIpld, found, lookup_in}
use go_legs.Selector.{
  RecursionLimit, limit_none, limit_depth, limit_other, entry, limit_node, stop_entries, or_default,
  explore_recursive_with_stop_node, at_key, get_stop_node, read_limit, get_recursion_limit,
  copy_entries, relimited, with_recursion_limit,
}

module _ {Node Link Key : Type 0} {ipld : IpldOps Node Link Key} (laws : IsIpld ipld) where
  lookup_in-here :
      (k : Key) (v : Node) (es : List (Node × Node))
      → lookup_in ipld (entry ipld k v ∷ es) k ≡ found v
  unfolding lookup_in
  lookup_in-here k v es = ground (arith, laws.kind-of_key k)

  lookup_in-there :
      (j k : Key) (v : Node) (es : List (Node × Node))
      → j ≢ k
      → lookup_in ipld (entry ipld j v ∷ es) k ≡ lookup_in ipld es k
  unfolding lookup_in
  lookup_in-there j k v es other = ground (arith, laws.kind-of_key j)

  lookup-build :
      (es : List (Node × Node)) (k : Key)
      → ipld.lookup_by_string (ipld.build_map es) k ≡ lookup_in ipld es k
  lookup-build es k = laws.lookup-entries _ es k (laws.entries-build es)

  at_key-here :
      (k : Key) (v : Node) (es : List (Node × Node))
      → at_key ipld (some (ipld.build_map (entry ipld k v ∷ es))) k ≡ some v
  at_key-here k v es = ground (arith, lookup-build (entry ipld k v ∷ es) k, lookup_in-here k v es)

  read_limit-limit_node :
      (rl : RecursionLimit) (ln : Node)
      → limit_node ipld rl ≡ some ln
      → read_limit ipld ln ≡ some rl
  unfolding limit_node read_limit lookup_in
  read_limit-limit_node limit_none ln p =
      let es = entry ipld ipld.key_none (ipld.build_map []) ∷ [] in
      ground (
        arith,
        p,
        lookup-build es ipld.key_depth,
        lookup-build es ipld.key_none,
        laws.kind-of_key ipld.key_none,
        laws.depth-ne-none,
      )
  read_limit-limit_node (limit_depth d) ln p =
      let es = entry ipld ipld.key_depth (ipld.of_int d) ∷ [] in
      ground (
        arith,
        p,
        lookup-build es ipld.key_depth,
        laws.kind-of_key ipld.key_depth,
        laws.as_int-of_int d,
      )
  read_limit-limit_node limit_other ln p = cc

  -- The entries of the recursion behind its limit.
  abbrev behind_limit : Option Node → Option Link → List (Node × Node)
  behind_limit sequence stop =
      entry ipld ipld.key_sequence (or_default ipld sequence) ∷ stop_entries ipld stop

  -- A selector of one recursion.
  abbrev selector_of : Node → List (Node × Node) → Node
  selector_of ln rest = ipld.build_map (
      entry ipld ipld.key_explore_recursive (ipld.build_map (entry ipld ipld.key_limit ln ∷ rest))
      ∷ [])

  at_key-recursion :
      (ln : Node) (rest : List (Node × Node))
      → at_key ipld (some (selector_of ln rest)) ipld.key_explore_recursive
        ≡ some (ipld.build_map (entry ipld ipld.key_limit ln ∷ rest))
  at_key-recursion ln rest =
      at_key-here ipld.key_explore_recursive (ipld.build_map (entry ipld ipld.key_limit ln ∷ rest))
        []

  stop-selector_of :
      (ln : Node) (sequence : Option Node) (stop : Option Link)
      → get_stop_node ipld (some (selector_of ln (behind_limit sequence stop))) ≡ stop
  unfolding get_stop_node stop_entries lookup_in
  stop-selector_of ln sequence none =
      let es = entry ipld ipld.key_limit ln ∷ behind_limit sequence none in
      ground (
        arith,
        at_key-recursion ln (behind_limit sequence none),
        lookup-build es ipld.key_stop_at,
        laws.kind-of_key ipld.key_limit,
        laws.kind-of_key ipld.key_sequence,
        laws.limit-ne-stop_at,
        laws.sequence-ne-stop_at,
      )
  stop-selector_of ln sequence (some stop) =
      let link = entry ipld ipld.key_link (ipld.of_link stop) ∷ [] in
      let es = entry ipld ipld.key_limit ln ∷ behind_limit sequence (some stop) in
      ground (
        arith,
        at_key-recursion ln (behind_limit sequence (some stop)),
        lookup-build es ipld.key_stop_at,
        laws.kind-of_key ipld.key_limit,
        laws.kind-of_key ipld.key_sequence,
        laws.kind-of_key ipld.key_stop_at,
        laws.limit-ne-stop_at,
        laws.sequence-ne-stop_at,
        at_key-here ipld.key_link (ipld.of_link stop) [],
        laws.as_link-of_link stop,
      )

  limit-selector_of :
      (rl : RecursionLimit) (ln : Node) (rest : List (Node × Node))
      → limit_node ipld rl ≡ some ln
      → get_recursion_limit ipld (some (selector_of ln rest)) ≡ some rl
  unfolding get_recursion_limit
  limit-selector_of rl ln rest p = ground (
    arith,
    at_key-recursion ln rest,
    at_key-here ipld.key_limit ln rest,
    read_limit-limit_node rl ln p,
  )

  -- The selector that `ExploreRecursiveWithStopNode` builds.
  built-selector_of :
      (limit : RecursionLimit) (sequence : Option Node) (stop : Option Link) (sel : Node)
      → explore_recursive_with_stop_node ipld limit sequence stop ≡ some sel
      → (ln : Node) × (limit_node ipld limit ≡ some ln)
        × (sel ≡ selector_of ln (behind_limit sequence stop))
  unfolding explore_recursive_with_stop_node
  built-selector_of limit sequence stop sel p = elim (Option-cases (limit_node ipld limit)) [
    | inl q ↦ absurd (ground (arith, p, q))
    | inr (ln, q) ↦ (ln, q, ground (arith, p, q))
  ]

  -- With nodes that IsIpld describes: what is read from a selector that
  -- ExploreRecursiveWithStopNode built is what it was built of, its recursion limit and its stop
  -- link, or that it has none.
  pub read-explore_recursive :
      (limit : RecursionLimit) (sequence : Option Node) (stop : Option Link) (sel : Node)
      → explore_recursive_with_stop_node ipld limit sequence stop ≡ some sel
      → (get_recursion_limit ipld (some sel) ≡ some limit) × (get_stop_node ipld (some sel) ≡ stop)
  read-explore_recursive limit sequence stop sel p =
      let (ln, q, e) = built-selector_of limit sequence stop sel p in
      let rest = behind_limit sequence stop in
      (
        ap (λ n. get_recursion_limit ipld (some n)) e ∙ limit-selector_of limit ln rest q,
        ap (λ n. get_stop_node ipld (some n)) e ∙ stop-selector_of ln sequence stop,
      )

  copy-behind_limit :
      (ln : Node) (sequence : Option Node) (stop : Option Link)
      → copy_entries ipld (entry ipld ipld.key_limit ln ∷ behind_limit sequence stop)
        ≡ some (behind_limit sequence stop)
  unfolding copy_entries stop_entries
  copy-behind_limit ln sequence none = ground (
    arith,
    laws.kind-of_key ipld.key_limit,
    laws.kind-of_key ipld.key_sequence,
    laws.limit-ne-sequence,
  )
  copy-behind_limit ln sequence (some stop) = ground (
    arith,
    laws.kind-of_key ipld.key_limit,
    laws.kind-of_key ipld.key_sequence,
    laws.kind-of_key ipld.key_stop_at,
    laws.limit-ne-sequence,
    laws.limit-ne-stop_at,
  )

  -- With nodes that IsIpld describes: to give a selector that ExploreRecursiveWithStopNode built
  -- another recursion limit is to build it with that limit; a limit of an unsupported mode is a
  -- panic both times.
  pub with_recursion_limit-explore_recursive :
      (limit new : RecursionLimit) (sequence : Option Node) (stop : Option Link) (sel : Node)
      → explore_recursive_with_stop_node ipld limit sequence stop ≡ some sel
      → with_recursion_limit ipld (some sel) new
        ≡ Option.map some (explore_recursive_with_stop_node ipld new sequence stop)
  unfolding with_recursion_limit explore_recursive_with_stop_node relimited
  with_recursion_limit-explore_recursive limit new sequence stop sel p =
      let (ln, q, e) = built-selector_of limit sequence stop sel p in
      let rest = behind_limit sequence stop in
      let es = entry ipld ipld.key_limit ln ∷ rest in
      elim (Option-cases (limit_node ipld new)) [
        | inl r ↦ ground (
          arith,
          e,
          r,
          at_key-recursion ln rest,
          laws.size-build (entry ipld ipld.key_explore_recursive (ipld.build_map es) ∷ []),
        )
        | inr (nn, r) ↦ ground (
          arith,
          e,
          r,
          at_key-recursion ln rest,
          laws.size-build (entry ipld ipld.key_explore_recursive (ipld.build_map es) ∷ []),
          laws.entries-build es,
          copy-behind_limit ln sequence stop,
        )
      ]

  -- A selector that was built, with another depth: what is read from it.
  pub with_recursion_limit-reads :
      (limit : RecursionLimit) (d : ℤ) (sequence : Option Node) (stop : Option Link) (sel : Node)
      → explore_recursive_with_stop_node ipld limit sequence stop ≡ some sel
      → (new : Node) × (with_recursion_limit ipld (some sel) (limit_depth d) ≡ some (some new))
        × (get_recursion_limit ipld (some new) ≡ some (limit_depth d))
        × (get_stop_node ipld (some new) ≡ stop)
  with_recursion_limit-reads limit d sequence stop sel p =
      elim (Option-cases (explore_recursive_with_stop_node ipld (limit_depth d) sequence stop)) [
        | inl q ↦ absurd (unfold explore_recursive_with_stop_node limit_node in ground (arith, q))
        | inr (new, q) ↦ (
          new,
          with_recursion_limit-explore_recursive limit (limit_depth d) sequence stop sel p
              ∙ ap (Option.map some) q,
          (read-explore_recursive (limit_depth d) sequence stop new q).0,
          (read-explore_recursive (limit_depth d) sequence stop new q).1,
        )
      ]
