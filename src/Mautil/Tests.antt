-- ===== src/Mautil/Tests.antt =====
-- mautil/mautil.go as mautil/mautil_test.go uses it, on addresses that are IP addresses or names.
use go_legs.Mautil.Ranges.{IsIp}
use go_legs.Prelude.{
  ℕ, ◌≡◌, refl, ◌==◌, if◌then◌else◌, keep, arith, subst, Bool-cases, inl, inr, Option, none, some,
  List, [], ◌∷◌,
}
use go_legs.Mautil.{filter_private_ips}
use go_legs.Mautil.Ip.{is_private, is_loopback, is_unspecified}
use go_legs.Mautil.Filter.{is_public, filter_private_ips-public}

-- 192.168.11.22, 8.8.8.8, a name, 127.0.0.1 and nil.
abbrev mixed : List (Option (Option (List ℕ)))
mixed =
    some (some (192 ∷ 168 ∷ 11 ∷ 22 ∷ []))
    ∷ some (some (8 ∷ 8 ∷ 8 ∷ 8 ∷ []))
    ∷ some none
    ∷ some (some (127 ∷ 0 ∷ 0 ∷ 1 ∷ []))
    ∷ none
    ∷ []

mixed_filtered :
    filter_private_ips (λ a. a) mixed ≡ some (some (8 ∷ 8 ∷ 8 ∷ 8 ∷ [])) ∷ some none ∷ none ∷ []
unfolding filter_private_ips is_private is_loopback is_unspecified
mixed_filtered = refl

-- The same with numbered addresses.
abbrev ip_of : ℕ → Option (List ℕ)
ip_of n =
    if n == 1
    then some (192 ∷ 168 ∷ 11 ∷ 22 ∷ [])
    else if n == 2
    then some (8 ∷ 8 ∷ 8 ∷ 8 ∷ [])
    else none

ip_of-IsIp : (n : ℕ) (ip : List ℕ) → ip_of n ≡ some ip → IsIp ip
ip_of-IsIp n ip found = elim (Bool-cases (n == 1)) [
  | inl first ↦
      let e : 192 ∷ 168 ∷ 11 ∷ 22 ∷ [] ≡ ip = ground (arith, first) in
      subst IsIp e (inl refl, ground arith)
  | inr other ↦ elim (Bool-cases (n == 2)) [
    | inl second ↦
        let e : 8 ∷ 8 ∷ 8 ∷ 8 ∷ [] ≡ ip = ground (arith, other, second) in
        subst IsIp e (inl refl, ground arith)
    | inr neither ↦ absurd (ground (arith, other, neither))
  ]
]

filter_private_ips-public_example :
    filter_private_ips ip_of (some 1 ∷ some 2 ∷ some 0 ∷ none ∷ [])
    ≡ keep (is_public ip_of) (some 1 ∷ some 2 ∷ some 0 ∷ none ∷ [])
filter_private_ips-public_example =
    filter_private_ips-public ip_of ip_of-IsIp (some 1 ∷ some 2 ∷ some 0 ∷ none ∷ [])
