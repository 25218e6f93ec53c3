-- ===== src/Announce/Lru/Nodes.antt =====
-- What announce/string_lru.go uses of container/list: elements are known by their address.
use go_legs.Prelude.{
  ℕ, ◌<◌, ◌≡◌, ◌≢◌, ◌==◌, if◌then◌else◌, Option, none, some, List, [], ◌∷◌, map, All,
}

-- `*list.Element`, by its address, and its `Value`.
pub record Node {ℓ} (K : Type ℓ) : Type ℓ where
  pub address : ℕ
  pub value : K

module _ {ℓ} {K : Type ℓ} where
  abbrev pub values : List (Node K) → List K
  values = map (λ n. n.value)

  unfoldable pub find : ℕ → List (Node K) → Option (Node K)
  find e [] = none
  find e (n ∷ ns) = if n.address == e then some n else find e ns

  -- `ll.Remove(e)`
  unfoldable pub unlink : ℕ → List (Node K) → List (Node K)
  unlink e [] = []
  unlink e (n ∷ ns) = if n.address == e then ns else n ∷ unlink e ns

  -- `ll.MoveToFront(e)`
  unfoldable pub move_to_front : ℕ → List (Node K) → List (Node K)
  unfolding find unlink
  move_to_front e ns = elim (find e ns) [ none ↦ ns | some n ↦ n ∷ unlink e ns ]

  -- `ll.Back()`
  unfoldable pub back : List (Node K) → Option (Node K)
  back [] = none
  back (n ∷ []) = some n
  back (n ∷ m ∷ ns) = back (m ∷ ns)

  -- Every address occurs once, and none has been allocated yet from `bound` on.
  abbrev pub HasDistinctAddresses : List (Node K) → Type 0
  HasDistinctAddresses [] = Unit {0}
  HasDistinctAddresses (n ∷ ns) = All (λ m. m.address ≢ n.address) ns × HasDistinctAddresses ns

  abbrev pub AreBelow : ℕ → List (Node K) → Type 0
  AreBelow bound = All (λ n. n.address < bound)

module _ {ℓ} {K : Type ℓ} (dec : Discrete K) where
  -- The address of the first element with a value.
  unfoldable pub address_of : K → List (Node K) → Option ℕ
  address_of k [] = none
  address_of k (n ∷ ns) = elim (dec n.value k) [ yes _ ↦ some n.address | no _ ↦ address_of k ns ]

  -- Every value occurs once.
  abbrev pub HasDistinctValues : List (Node K) → Type 0
  HasDistinctValues [] = Unit {0}
  HasDistinctValues (n ∷ ns) = (address_of n.value ns ≡ none) × HasDistinctValues ns
