-- ===== src/Mautil.antt =====
-- mautil/mautil.go: removing private addresses from a slice. A multiaddr and its conversion to an
-- IP are parameters; net.IP is a slice of bytes, and a nil multiaddr is `none`.
pub mod Ip
pub mod Ranges
pub mod Filter
mod Tests
use go_legs.Prelude.{
  ℕ, ◌+◌, ◌-◌, ◌==◌, if◌then◌else◌, Bool, true, false, ◌||◌, ltb, Option, none, some, List, [], ◌∷◌,
  length, get_or,
}
use Ip.{is_private, is_loopback, is_unspecified}

-- `pvt = pvt[1:]; skip = pvt[0]`, if more than one index is left.
abbrev next_pvt : List ℕ → List ℕ
next_pvt (p ∷ q ∷ pvt) = q ∷ pvt
next_pvt pvt = pvt

abbrev next_skip : ℕ → List ℕ → ℕ
next_skip skip (p ∷ q ∷ pvt) = q
next_skip skip pvt = skip

module _ {ℓ} {Multiaddr : Type ℓ} (to_ip : Multiaddr → Option (List ℕ)) where
  -- The test of the first loop of `FilterPrivateIPs`.
  unfoldable pub is_filtered : Option Multiaddr → Bool
  is_filtered none = false
  is_filtered (some maddr) = elim (to_ip maddr) [
    | none ↦ false
    | some ip ↦ is_private ip || is_loopback ip || is_unspecified ip
  ]

  -- The first loop: `pvt`, from index `i` on.
  unfoldable pub private_from : ℕ → List (Option Multiaddr) → List ℕ
  unfolding is_filtered
  private_from i [] = []
  private_from i (maddr ∷ maddrs) =
      let rest = private_from (i + 1) maddrs in if is_filtered maddr then i ∷ rest else rest

  -- The second loop, from index `i` on, with `skip` the index to leave out next.
  unfoldable pub skip_from : ℕ → ℕ → List ℕ → List (Option Multiaddr) → List (Option Multiaddr)
  skip_from i skip pvt [] = []
  skip_from i skip pvt (maddr ∷ maddrs) =
      let dropped = skip_from (i + 1) (next_skip skip pvt) (next_pvt pvt) maddrs in
      let kept = skip_from (i + 1) skip pvt maddrs in if i == skip then dropped else maddr ∷ kept

  unfoldable pub filter_private_ips : List (Option Multiaddr) → List (Option Multiaddr)
  unfolding private_from skip_from
  filter_private_ips maddrs =
      let pvt = private_from 0 maddrs in
      if length pvt == 0
      then maddrs
      else if length maddrs - length pvt == 0
      then []
      else skip_from 0 (get_or pvt 0 0) pvt maddrs
