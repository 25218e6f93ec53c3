-- ===== src/Mautil/Filter.antt =====
-- The two loops of `FilterPrivateIPs` (mautil/mautil.go) against a plain filter.
use go_legs.Prelude.{
  ℕ, none, some, ◌∙◌, Bool, true, Option-cases, ◌+◌, ◌-◌, ◌<◌, ◌≤◌, ◌≡◌, refl, sym, inl, inr, ◌==◌,
  not, Option, List, [], ◌∷◌, length, keep, arith, List-cases, Bool-cases, ==-eq, suc_eq_zero,
}
use go_legs.Mautil.Ranges.{IsIp, is_local, is_caught-is_local}
use go_legs.Mautil.{is_filtered, private_from, skip_from, filter_private_ips}

module _ {ℓ} {Multiaddr : Type ℓ} (to_ip : Multiaddr → Option (List ℕ)) where
  -- The addresses that pass the test of the first loop.
  abbrev pub unfiltered : List (Option Multiaddr) → List (Option Multiaddr)
  unfiltered = keep (λ maddr. not (is_filtered to_ip maddr))

  private_from-le :
      (i : ℕ) (maddrs : List (Option Multiaddr)) (p : ℕ) (pvt : List ℕ)
      → private_from to_ip i maddrs ≡ p ∷ pvt
      → i ≤ p
  unfolding private_from
  private_from-le i [] p pvt e = cc
  private_from-le i (maddr ∷ maddrs) p pvt e = ground (arith, private_from-le (i + 1) maddrs p pvt)

  -- Behind the last private address, nothing more is left out.
  skip_from-past :
      (i skip : ℕ) (pvt : List ℕ) (maddrs : List (Option Multiaddr))
      → skip < i
      → private_from to_ip i maddrs ≡ []
      → skip_from to_ip i skip pvt maddrs ≡ unfiltered maddrs
  unfolding skip_from private_from keep
  skip_from-past i skip pvt [] h e = refl
  skip_from-past i skip pvt (maddr ∷ maddrs) h e =
      ground (arith, skip_from-past (i + 1) skip pvt maddrs)

  skip_from-unfiltered :
      (i skip : ℕ) (pvt : List ℕ) (maddrs : List (Option Multiaddr))
      → private_from to_ip i maddrs ≡ skip ∷ pvt
      → skip_from to_ip i skip (skip ∷ pvt) maddrs ≡ unfiltered maddrs
  unfolding skip_from private_from keep
  skip_from-unfiltered i skip pvt [] e = cc
  skip_from-unfiltered i skip [] (maddr ∷ maddrs) e = ground (
    arith,
    private_from-le (i + 1) maddrs skip [],
    skip_from-past (i + 1) skip (skip ∷ []) maddrs,
    skip_from-unfiltered (i + 1) skip [] maddrs,
  )
  skip_from-unfiltered i skip (q ∷ pvt) (maddr ∷ maddrs) e = ground (
    arith,
    private_from-le (i + 1) maddrs skip (q ∷ pvt),
    skip_from-unfiltered (i + 1) skip (q ∷ pvt) maddrs,
    skip_from-unfiltered (i + 1) q pvt maddrs,
  )

  unfiltered-all :
      (i : ℕ) (maddrs : List (Option Multiaddr))
      → private_from to_ip i maddrs ≡ []
      → unfiltered maddrs ≡ maddrs
  unfolding private_from keep
  unfiltered-all i [] e = refl
  unfiltered-all i (maddr ∷ maddrs) e = ground (arith, unfiltered-all (i + 1) maddrs)

  length-private_from :
      (i : ℕ) (maddrs : List (Option Multiaddr))
      → length (private_from to_ip i maddrs) + length (unfiltered maddrs) ≡ length maddrs
  unfolding private_from keep
  length-private_from i [] = omega arith
  length-private_from i (maddr ∷ maddrs) = ground (arith, length-private_from (i + 1) maddrs)

  unfiltered-nil :
      (maddrs : List (Option Multiaddr))
      → length maddrs - length (private_from to_ip 0 maddrs) ≡ 0
      → unfiltered maddrs ≡ []
  unfiltered-nil maddrs e = ground (arith, length-private_from 0 maddrs)

  -- The two loops keep what passes the test.
  filter_private_ips-unfiltered :
      (maddrs : List (Option Multiaddr)) → filter_private_ips to_ip maddrs ≡ unfiltered maddrs
  unfolding filter_private_ips
  filter_private_ips-unfiltered maddrs = elim (List-cases (private_from to_ip 0 maddrs)) [
    | inl e ↦ rw (e, filter_private_ips) (sym (unfiltered-all 0 maddrs e))
    | inr (skip, pvt, e) ↦ elim (Bool-cases (length maddrs - length (skip ∷ pvt) == 0)) [
      | inl all ↦
          rw (e, filter_private_ips, suc_eq_zero (length pvt), all)
            (sym (unfiltered-nil maddrs (rw e (==-eq _ _ all))))
      | inr some_left ↦
          rw (e, filter_private_ips, suc_eq_zero (length pvt), some_left)
            (skip_from-unfiltered 0 skip pvt maddrs e)
    ]
  ]

  -- Neither private nor loopback nor unspecified: its IP is in none of the ranges. A name, or a nil
  -- address, has no IP.
  abbrev pub is_public : Option Multiaddr → Bool
  is_public none = true
  is_public (some maddr) = elim (to_ip maddr) [ none ↦ true | some ip ↦ not (is_local ip) ]

  keep-same :
      (f g : Option Multiaddr → Bool)
      → ((m : Option Multiaddr) → f m ≡ g m)
      → (maddrs : List (Option Multiaddr)) → keep f maddrs ≡ keep g maddrs
  unfolding keep
  keep-same f g same [] = refl
  keep-same f g same (m ∷ maddrs) = ground (arith, same m, keep-same f g same maddrs)

  unfiltered-is_public :
      ((maddr : Multiaddr) (ip : List ℕ) → to_ip maddr ≡ some ip → IsIp ip)
      → (m : Option Multiaddr) → not (is_filtered to_ip m) ≡ is_public m
  unfolding is_filtered
  unfiltered-is_public ips none = refl
  unfiltered-is_public ips (some maddr) = elim (Option-cases (to_ip maddr)) [
    | inl named ↦ ground (arith, named)
    | inr (ip, found) ↦ ground (arith, found, is_caught-is_local ip (ips maddr ip found))
  ]

  -- If an IP has 4 or 16 bytes, FilterPrivateIPs returns the addresses whose IP is in none of the
  -- private ranges (10.0.0.0/8, 172.16.0.0/12, 192.168.0.0/16, fc00::/7), of the loopback addresses
  -- (127.0.0.0/8, ::1) and of the unspecified ones (0.0.0.0, ::), also as IPv4 in IPv6, nil ones and
  -- names included, in their order, whatever the slice.
  pub filter_private_ips-public :
      ((maddr : Multiaddr) (ip : List ℕ) → to_ip maddr ≡ some ip → IsIp ip)
      → (maddrs : List (Option Multiaddr)) → filter_private_ips to_ip maddrs ≡ keep is_public maddrs
  filter_private_ips-public ips maddrs =
      filter_private_ips-unfiltered maddrs
      ∙ keep-same (λ m. not (is_filtered to_ip m)) is_public (unfiltered-is_public ips) maddrs
