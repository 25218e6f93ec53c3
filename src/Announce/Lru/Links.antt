-- ===== src/Announce/Lru/Links.antt =====
-- Lemmas on linked elements: an address and its value stand for each other.
use go_legs.Prelude.{
  ℕ, suc, ◌+◌, ◌≡◌, refl, ap, ◌≢◌, none, some, List, [], ◌∷◌, length, take, remove, contains,
  remove_absent, arith, All, Bool-cases, is_some, ◌==◌, inl, inr, subst, ite, ◌∙◌,
}
use go_legs.Announce.Lru.Nodes.{
  Node, values, find, unlink, back, address_of, HasDistinctAddresses, HasDistinctValues, AreBelow,
}

module _ {ℓ} {K : Type ℓ} where
  pub All-unlink {κ} :
      (P : Node K → Type κ) (e : ℕ) (ns : List (Node K)) → All P ns → All P (unlink e ns)
  unfolding unlink
  All-unlink P e [] h = h
  All-unlink P e (n ∷ ns) h = ground (arith, All-unlink P e ns h.1)

  pub unlink-HasDistinctAddresses :
      (e : ℕ) (ns : List (Node K)) → HasDistinctAddresses ns → HasDistinctAddresses (unlink e ns)
  unfolding unlink
  unlink-HasDistinctAddresses e [] h = h
  unlink-HasDistinctAddresses e (n ∷ ns) h = ground (
    arith,
    unlink-HasDistinctAddresses e ns h.1,
    All-unlink (λ m. m.address ≢ n.address) e ns h.0,
  )

  pub All-below_ne :
      (bound : ℕ) (ns : List (Node K)) → AreBelow bound ns → All (λ m. m.address ≢ bound) ns
  All-below_ne bound [] h = tt
  All-below_ne bound (n ∷ ns) h = (omega arith, All-below_ne bound ns h.1)

  pub AreBelow-add : (bound : ℕ) (ns : List (Node K)) → AreBelow bound ns → AreBelow (bound + 1) ns
  AreBelow-add bound [] h = tt
  AreBelow-add bound (n ∷ ns) h = (omega arith, AreBelow-add bound ns h.1)

  pub All-find {κ} :
      (P : Node K → Type κ) (e : ℕ) (ns : List (Node K)) (n : Node K)
      → All P ns
      → find e ns ≡ some n
      → P n
  unfolding find
  All-find P e [] n h p = cc
  All-find P e (m ∷ ns) n h p = elim (Bool-cases (m.address == e)) [
    | inl here ↦ let q : m ≡ n = ground arith in subst P q h.0
    | inr there ↦ All-find P e ns n h.1 (rw there at p)
  ]

  -- The addresses are distinct, so the one that is unlinked does not stay.
  pub unlink-ne :
      (e : ℕ) (ns : List (Node K))
      → HasDistinctAddresses ns
      → All (λ m. m.address ≢ e) (unlink e ns)
  unfolding unlink
  unlink-ne e [] h = tt
  unlink-ne e (n ∷ ns) h = elim (Bool-cases (n.address == e)) [
    | inl here ↦ let p : n.address ≡ e = ground arith in rw here (rw p at h.0)
    | inr there ↦ rw there (ground arith, unlink-ne e ns h.1)
  ]

module _ {ℓ} {K : Type ℓ} (dec : Discrete K) where
  pub contains-values :
      (s : K) (ns : List (Node K)) → contains dec s (values ns) ≡ is_some (address_of dec s ns)
  unfolding contains address_of
  contains-values s [] = refl
  contains-values s (n ∷ ns) = ground (arith, contains-values s ns)

  -- An address that a value has is the address of an element.
  address_of-ne :
      (s : K) (ns : List (Node K)) (e a : ℕ)
      → All (λ m. m.address ≢ a) ns
      → address_of dec s ns ≡ some e
      → e ≢ a
  unfolding address_of
  address_of-ne s [] e a h p = cc
  address_of-ne s (n ∷ ns) e a h p = ground (arith, address_of-ne s ns e a h.1)

  pub find-address_of :
      (s : K) (ns : List (Node K)) (e : ℕ)
      → HasDistinctAddresses ns
      → address_of dec s ns ≡ some e
      → find e ns ≡ some (record { address = e; value = s })
  unfolding address_of find
  find-address_of s [] e h p = cc
  find-address_of s (n ∷ ns) e h p =
      ground (arith, address_of-ne s ns e n.address h.0, find-address_of s ns e h.1)

  pub values-unlink :
      (s : K) (ns : List (Node K)) (e : ℕ)
      → HasDistinctAddresses ns
      → HasDistinctValues dec ns
      → address_of dec s ns ≡ some e
      → values (unlink e ns) ≡ remove dec s (values ns)
  unfolding address_of unlink remove
  values-unlink s [] e h d p = cc
  values-unlink s (n ∷ ns) e h d p = elim (dec n.value s) [
    | yes q ↦ ground (arith, remove_absent dec s (values ns), contains-values s ns)
    | no q ↦ ground (arith, address_of-ne s ns e n.address h.0, values-unlink s ns e h.1 d.1)
  ]

  pub address_of-unlink :
      (s k : K) (ns : List (Node K)) (e : ℕ)
      → HasDistinctAddresses ns
      → HasDistinctValues dec ns
      → address_of dec s ns ≡ some e
      → address_of dec k (unlink e ns) ≡ ite (dec s k) none (address_of dec k ns)
  unfolding address_of unlink
  address_of-unlink s k [] e h d p = cc
  address_of-unlink s k (n ∷ ns) e h d p =
      ground (arith, address_of-ne s ns e n.address h.0, address_of-unlink s k ns e h.1 d.1)

  address_of-unlink-none :
      (k : K) (ns : List (Node K)) (e : ℕ)
      → address_of dec k ns ≡ none
      → address_of dec k (unlink e ns) ≡ none
  unfolding address_of unlink
  address_of-unlink-none k [] e p = refl
  address_of-unlink-none k (n ∷ ns) e p = ground (arith, address_of-unlink-none k ns e)

  pub unlink-HasDistinctValues :
      (e : ℕ) (ns : List (Node K)) → HasDistinctValues dec ns → HasDistinctValues dec (unlink e ns)
  unfolding unlink
  unlink-HasDistinctValues e [] h = h
  unlink-HasDistinctValues e (n ∷ ns) h =
      ground (arith, unlink-HasDistinctValues e ns h.1, address_of-unlink-none n.value ns e h.0)

  pub length-unlink :
      (s : K) (ns : List (Node K)) (e : ℕ)
      → address_of dec s ns ≡ some e
      → suc (length (unlink e ns)) ≡ length ns
  unfolding address_of unlink
  length-unlink s [] e p = cc
  length-unlink s (n ∷ ns) e p = ground (arith, length-unlink s ns e)

  address_of-cons :
      (n m : Node K) (ns : List (Node K))
      → address_of dec n.value ns ≡ none
      → address_of dec m.value ns ≡ some m.address
      → address_of dec m.value (n ∷ ns) ≡ some m.address
  unfolding address_of
  address_of-cons n m ns fresh linked = ground arith

  values-unlink_skip :
      (n m : Node K) (ns : List (Node K))
      → m.address ≢ n.address
      → values (unlink m.address (n ∷ ns)) ≡ n.value ∷ values (unlink m.address ns)
  unfolding unlink
  values-unlink_skip n m ns h = ground arith

  -- The element at the back is the one that `take` leaves out.
  pub back-last :
      (k : ℕ) (ns : List (Node K))
      → length ns ≡ suc k
      → HasDistinctAddresses ns
      → HasDistinctValues dec ns
      → (m : Node K) × (back ns ≡ some m)
        × (address_of dec m.value ns ≡ some m.address)
        × (values (unlink m.address ns) ≡ take k (values ns))
  unfolding back take
  back-last k [] p h d = absurd (omega arith)
  back-last k (n ∷ []) p h d =
      let e : k ≡ 0 = omega arith in
      (n, refl, unfold address_of in ground arith, rw e (unfold unlink in ground arith))
  back-last k (n ∷ n' ∷ ns) p h d =
      let (m, last, linked, kept) = back-last (length ns) (n' ∷ ns) refl h.1 d.1 in
      let e : k ≡ suc (length ns) = omega arith in
      (
        m,
        last,
        address_of-cons n m (n' ∷ ns) d.0 linked,
        values-unlink_skip n m (n' ∷ ns)
              (address_of-ne m.value (n' ∷ ns) m.address n.address h.0 linked)
            ∙ ap (◌∷◌ n.value) kept
            ∙ rw e refl,
      )
