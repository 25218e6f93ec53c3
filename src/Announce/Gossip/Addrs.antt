-- ===== src/Announce/Gossip/Addrs.antt =====
-- announce/gossiptopic/message.go: multiaddrs in and out of a message. The forms of a multiaddr are
-- parameters; a nil multiaddr is `none`.
use go_legs.Prelude.{◌≡◌, ℕ, Option, none, some, List, [], ◌∷◌, arith, Option-cases, inl, inr}

module _ {Addr : Type 0} (bytes : Addr → List ℕ) where
  -- `SetAddrs`: the new `m.Addrs`. `none` is a nil panic.
  unfoldable pub set_addrs : List (Option Addr) → Option (List (List ℕ))
  set_addrs [] = some []
  set_addrs (none ∷ addrs) = none
  set_addrs (some a ∷ addrs) = elim (set_addrs addrs) [
    | none ↦ none
    | some rest ↦ some (bytes a ∷ rest)
  ]

module _ {Addr : Type 0} (from_bytes : List ℕ → Option Addr) where
  -- `GetAddrs`. `none` is an error.
  unfoldable pub get_addrs : List (List ℕ) → Option (List (Option Addr))
  get_addrs [] = some []
  get_addrs (v ∷ vs) = elim (from_bytes v) [
    | none ↦ none
    | some a ↦ elim (get_addrs vs) [ none ↦ none | some rest ↦ some (some a ∷ rest) ]
  ]

-- If the bytes of each address can be read back, the addresses that a message was given are the
-- addresses that are read from it.
pub get_addrs-set_addrs :
    {Addr : Type 0} (bytes : Addr → List ℕ) (from_bytes : List ℕ → Option Addr)
    → ((a : Addr) → from_bytes (bytes a) ≡ some a)
    → (addrs : List (Option Addr)) (vs : List (List ℕ)) → set_addrs bytes addrs ≡ some vs
    → get_addrs from_bytes vs ≡ some addrs
unfolding set_addrs get_addrs
get_addrs-set_addrs bytes from_bytes law [] vs e = ground arith
get_addrs-set_addrs bytes from_bytes law (none ∷ addrs) vs e = cc
get_addrs-set_addrs bytes from_bytes law (some a ∷ addrs) vs e =
    elim (Option-cases (set_addrs bytes addrs)) [
      | inl nil ↦ ground (arith, nil)
      | inr (rest, h) ↦
          ground (arith, h, law a, get_addrs-set_addrs bytes from_bytes law addrs rest h)
    ]
