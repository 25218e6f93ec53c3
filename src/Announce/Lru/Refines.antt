-- ===== src/Announce/Lru/Refines.antt =====
-- The cache of announce/string_lru.go against a list of keys, most recently used first.
use go_legs.Prelude.{
  ℕ, ◌-◌, ◌<◌, ◌≤◌, ◌≡◌, refl, ap, inl, inr, ◌≢◌, sym, ◌∙◌, none, some, ◌∷◌, length, take, remove,
  contains, remove_absent, arith, true, false, Option-cases, Bool-cases, is_some, if_pos,
  length-map, ◌==◌, take_of_length-le, take-cons,
}
use go_legs.Announce.Lru.{Lru, assign, remove_key, make_room, push_front, update, new_lru}
use go_legs.Announce.Lru.Nodes.{
  Node, values, unlink, move_to_front, address_of, HasDistinctAddresses, HasDistinctValues,
  AreBelow,
}
use go_legs.Announce.Lru.Links.{
  All-unlink, unlink-HasDistinctAddresses, All-below_ne, AreBelow-add, All-find, unlink-ne,
  contains-values, find-address_of, values-unlink, address_of-unlink, unlink-HasDistinctValues,
  length-unlink, back-last,
}

-- The map holds for each key the address of the one element with that value.
pub record IsValid {ℓ} {K : Type ℓ} (dec : Discrete K) (l : Lru K) : Type ℓ where
  pub agrees : (k : K) → l.cache k ≡ address_of dec k l.nodes
  pub addresses : HasDistinctAddresses l.nodes
  pub distinct : HasDistinctValues dec l.nodes
  pub below : AreBelow l.fresh l.nodes
  pub bounded : length l.nodes ≤ l.max

module _ {ℓ} {K : Type ℓ} (dec : Discrete K) where
  pub new_lru-IsValid : (n : ℕ) → IsValid dec (new_lru n)
  unfolding new_lru address_of
  new_lru-IsValid n = record {
    agrees = λ k. refl;
    addresses = tt;
    distinct = tt;
    below = tt;
    bounded = omega arith;
  }

  -- Without the element of a key: the state that `remove_key` and the eviction leave.
  abbrev drop_key : Lru K → K → ℕ → Lru K
  drop_key l s e = record l { nodes = unlink e l.nodes; cache = assign dec l.cache s none }

  drop_key-IsValid :
      (l : Lru K) (s : K) (e : ℕ)
      → IsValid dec l
      → address_of dec s l.nodes ≡ some e
      → IsValid dec (drop_key l s e)
  unfolding assign
  drop_key-IsValid l s e v p = record {
    agrees = λ k.
        ground (arith, address_of-unlink dec s k l.nodes e v.addresses v.distinct p, v.agrees k);
    addresses = unlink-HasDistinctAddresses e l.nodes v.addresses;
    distinct = unlink-HasDistinctValues dec e l.nodes v.distinct;
    below = All-unlink _ e l.nodes v.below;
    bounded = omega (arith, length-unlink dec s l.nodes e p, v.bounded);
  }

  contains-cache :
      (l : Lru K) (s : K) → IsValid dec l → contains dec s (values l.nodes) ≡ is_some (l.cache s)
  contains-cache l s v = contains-values dec s l.nodes ∙ ap is_some (sym (v.agrees s))

  absent-cache :
      (l : Lru K) (s : K)
      → IsValid dec l
      → l.cache s ≡ none
      → contains dec s (values l.nodes) ≡ false
  absent-cache l s v miss = contains-cache l s v ∙ ap is_some miss

  present-cache :
      (l : Lru K) (s : K) (e : ℕ)
      → IsValid dec l
      → l.cache s ≡ some e
      → contains dec s (values l.nodes) ≡ true
  present-cache l s e v hit = contains-cache l s v ∙ ap is_some hit

  -- On a well formed LRU, remove takes the key out, leaves the others in their order, reports
  -- whether it was there, and keeps the LRU well formed.
  pub remove_key-refines :
      (l : Lru K) (s : K)
      → IsValid dec l
      → IsValid dec (remove_key dec l s).0
        × (values (remove_key dec l s).0.nodes ≡ remove dec s (values l.nodes))
        × ((remove_key dec l s).1 ≡ contains dec s (values l.nodes))
  unfolding remove_key
  remove_key-refines l s v = elim (Option-cases (l.cache s)) [
    | inl miss ↦
        rw (miss, remove_key)
          (
            v,
            sym (remove_absent dec s (values l.nodes) (absent-cache l s v miss)),
            sym (absent-cache l s v miss),
          )
    | inr (e, hit) ↦
        let p = sym (v.agrees s) ∙ hit in
        rw (hit, remove_key)
          (
            drop_key-IsValid l s e v p,
            values-unlink dec s l.nodes e v.addresses v.distinct p,
            sym (present-cache l s e v hit),
          )
  ]

  pub max-remove_key : (l : Lru K) (s : K) → (remove_key dec l s).0.max ≡ l.max
  unfolding remove_key
  max-remove_key l s = ground arith

  -- The cache after the eviction, if one is needed: valid, with room for one key more.
  abbrev HasRoom : Lru K → Lru K → Type ℓ
  HasRoom l r =
      IsValid dec r
      × (values r.nodes ≡ take (l.max - 1) (values l.nodes))
      × (length r.nodes < r.max)
      × (r.max ≡ l.max)
      × ((k : K) → l.cache k ≡ none → r.cache k ≡ none)

  eq_of_false : (l : Lru K) → (length l.nodes == l.max) ≡ false → length l.nodes ≢ l.max
  eq_of_false l h = ground arith

  make_room-HasRoom :
      (l : Lru K)
      → IsValid dec l
      → 0 < l.max
      → (r : Lru K) × (make_room dec l ≡ some r) × HasRoom l r
  unfolding make_room
  make_room-HasRoom l v pos = elim (Bool-cases (length l.nodes == l.max)) [
    | inl full ↦
        let (m, last, linked, kept) =
          back-last dec (l.max - 1) l.nodes (ground arith) v.addresses v.distinct in
        (
          drop_key l m.value m.address,
          rw (full, last) refl,
          (
            drop_key-IsValid l m.value m.address v linked,
            kept,
            ground (arith, length-unlink dec m.value l.nodes m.address linked),
            refl,
            λ k. unfold assign in λ p. ground arith,
          ),
        )
    | inr more ↦
        let room : length l.nodes < l.max = omega (arith, v.bounded, eq_of_false l more) in
        (
          l,
          rw more refl,
          (
            v,
            sym (
                take_of_length-le _ _
                  (omega (arith, length-map (λ (n : Node K). n.value) l.nodes, room))),
            room,
            refl,
            λ k p. p,
          ),
        )
  ]

  push_front-IsValid :
      (l : Lru K) (s : K)
      → IsValid dec l
      → l.cache s ≡ none
      → length l.nodes < l.max
      → IsValid dec (push_front dec l s)
  unfolding push_front
  push_front-IsValid l s v miss room = record {
    agrees = λ k. unfold assign address_of in ground (arith, v.agrees k);
    addresses = (All-below_ne l.fresh l.nodes v.below, v.addresses);
    distinct = (sym (v.agrees s) ∙ miss, v.distinct);
    below = (omega arith, AreBelow-add l.fresh l.nodes v.below);
    bounded = omega arith;
  }

  -- The state after a hit: the element of the key is at the front.
  abbrev touched : Lru K → K → ℕ → Lru K
  touched l s e = record l { nodes = record { address = e; value = s } ∷ unlink e l.nodes }

  touched-IsValid :
      (l : Lru K) (s : K) (e : ℕ)
      → IsValid dec l
      → address_of dec s l.nodes ≡ some e
      → IsValid dec (touched l s e)
  touched-IsValid l s e v p = record {
    agrees = λ k.
        unfold address_of in
        ground (arith, address_of-unlink dec s k l.nodes e v.addresses v.distinct p, v.agrees k);
    addresses =
        (unlink-ne e l.nodes v.addresses, unlink-HasDistinctAddresses e l.nodes v.addresses);
    distinct = (
      address_of-unlink dec s s l.nodes e v.addresses v.distinct p ∙ if_pos (dec s s) refl _ _,
      unlink-HasDistinctValues dec e l.nodes v.distinct,
    );
    below = (
      All-find (λ n. n.address < l.fresh) e l.nodes _ v.below
          (find-address_of dec s l.nodes e v.addresses p),
      All-unlink _ e l.nodes v.below,
    );
    bounded = omega (arith, length-unlink dec s l.nodes e p, v.bounded);
  }

  -- On a well formed LRU of a positive size, update never fails, reports whether the key was
  -- there, leaves this key in front of the others in their order, at most as many as the size in
  -- all, and keeps the LRU well formed and its size.
  pub update-refines :
      (l : Lru K) (s : K)
      → IsValid dec l
      → 0 < l.max
      → (r : Lru K) × (update dec l s ≡ some (r, contains dec s (values l.nodes)))
        × IsValid dec r
        × (values r.nodes ≡ take l.max (s ∷ remove dec s (values l.nodes)))
        × (r.max ≡ l.max)
  unfolding update
  update-refines l s v pos = elim (Option-cases (l.cache s)) [
    | inl miss ↦
        let (r, made, (valid, kept, room, same, forgets)) = make_room-HasRoom l v pos in
        (
          push_front dec r s,
          rw (miss, update, made, absent-cache l s v miss) refl,
          push_front-IsValid r s valid (forgets s miss) room,
          ap (◌∷◌ s) (
                kept
                ∙ ap (take (l.max - 1))
                    (sym (remove_absent dec s (values l.nodes) (absent-cache l s v miss))))
              ∙ sym (take-cons l.max s _ pos),
          unfold push_front in same,
        )
    | inr (e, hit) ↦
        let p = sym (v.agrees s) ∙ hit in
        let kept = values-unlink dec s l.nodes e v.addresses v.distinct p in
        (
          touched l s e,
          rw
              (
                hit,
                update,
                move_to_front,
                find-address_of dec s l.nodes e v.addresses p,
                present-cache l s e v hit,
              )
              refl,
          touched-IsValid l s e v p,
          ap (◌∷◌ s) kept
              ∙ sym (
                  take_of_length-le l.max _ (
                    omega (
                      arith,
                      ap length kept,
                      length-map (λ (n : Node K). n.value) (unlink e l.nodes),
                      length-unlink dec s l.nodes e p,
                      v.bounded,
                    ))),
          refl,
        )
  ]
