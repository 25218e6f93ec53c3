-- ===== src/Mautil/Ip.antt =====
-- The predicates of net.IP that mautil/mautil.go calls, on an address of 4 or 16 bytes.
use Prim.Native.Nat.{bit_and}
use go_legs.Prelude.{
  ℕ, ◌==◌, Bool, true, false, ◌&&◌, ◌||◌, Option, none, some, List, [], ◌∷◌, length, get_or, take,
  drop, if◌then◌else◌,
}

-- `bytes.Equal`
unfoldable pub equal : List ℕ → List ℕ → Bool
equal [] [] = true
equal (x ∷ xs) (y ∷ ys) = x == y && equal xs ys
equal _ _ = false

abbrev pub in_v6 : List ℕ
in_v6 = 0 ∷ 0 ∷ 0 ∷ 0 ∷ 0 ∷ 0 ∷ 0 ∷ 0 ∷ 0 ∷ 0 ∷ 0xff ∷ 0xff ∷ []

abbrev pub v6_loopback : List ℕ
v6_loopback = 0 ∷ 0 ∷ 0 ∷ 0 ∷ 0 ∷ 0 ∷ 0 ∷ 0 ∷ 0 ∷ 0 ∷ 0 ∷ 0 ∷ 0 ∷ 0 ∷ 0 ∷ 1 ∷ []

abbrev pub v6_unspecified : List ℕ
v6_unspecified = 0 ∷ 0 ∷ 0 ∷ 0 ∷ 0 ∷ 0 ∷ 0 ∷ 0 ∷ 0 ∷ 0 ∷ 0 ∷ 0 ∷ 0 ∷ 0 ∷ 0 ∷ 0 ∷ []

-- `ip.To4()`
unfoldable pub to4 : List ℕ → Option (List ℕ)
unfolding equal take drop
to4 ip =
    if length ip == 4
    then some ip
    else if length ip == 16 && equal (take 12 ip) in_v6
    then some (drop 12 ip)
    else none

unfoldable pub is_private : List ℕ → Bool
unfolding to4
is_private ip = elim (to4 ip) [
  | some ip4 ↦
      get_or ip4 0 0 == 10
      || get_or ip4 0 0 == 172 && bit_and (get_or ip4 1 0) 0xf0 == 16
      || get_or ip4 0 0 == 192 && get_or ip4 1 0 == 168
  | none ↦ length ip == 16 && bit_and (get_or ip 0 0) 0xfe == 0xfc
]

unfoldable pub is_loopback : List ℕ → Bool
unfolding to4
is_loopback ip = elim (to4 ip) [ some ip4 ↦ get_or ip4 0 0 == 127 | none ↦ equal ip v6_loopback ]

unfoldable pub is_unspecified : List ℕ → Bool
unfolding to4
is_unspecified ip = elim (to4 ip) [
  | some ip4 ↦ equal ip4 (0 ∷ 0 ∷ 0 ∷ 0 ∷ [])
  | none ↦ equal ip v6_unspecified
]
