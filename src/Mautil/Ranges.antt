-- ===== src/Mautil/Ranges.antt =====
-- The address ranges that are private, loopback or unspecified, as CIDR blocks (RFC 1918, RFC 4193), and
-- that the tests of net.IP in mautil/mautil.go are those of the ranges.
use Prim.Native.Nat.{bit_and}
use go_legs.Prelude.{
  ℕ, zero, suc, ◌+◌, ◌-◌, ◌<◌, ◌≡◌, refl, sym, ap, ◌∙◌, ◌==◌, leb, Bool, true, false, ◌&&◌, ◌||◌,
  if◌then◌else◌, none, some, List, [], ◌∷◌, ◌++◌, length, take, drop, arith, All, Bool-cases, inl,
  inr, ◌⊎◌,
}
use go_legs.Mautil.Ip.{equal, in_v6, to4, is_private, is_loopback, is_unspecified}

-- The addresses with a prefix, whose next byte is in a range.
pub record Block : Type 0 where
  pub prefix : List ℕ
  pub low : ℕ
  pub high : ℕ

unfoldable pub starts_in : List ℕ → ℕ → ℕ → List ℕ → Bool
starts_in ps lo hi [] = false
starts_in [] lo hi (b ∷ bs) = leb lo b && leb b hi
starts_in (p ∷ ps) lo hi (b ∷ bs) = b == p && starts_in ps lo hi bs

unfoldable pub starts_with : List ℕ → List ℕ → Bool
starts_with [] bs = true
starts_with (p ∷ ps) [] = false
starts_with (p ∷ ps) (b ∷ bs) = b == p && starts_with ps bs

abbrev pub is_in : List Block → List ℕ → Bool
is_in [] ip = false
is_in (r ∷ rs) ip = starts_in r.prefix r.low r.high ip || is_in rs ip

-- 10.0.0.0/8, 172.16.0.0/12, 192.168.0.0/16, 127.0.0.0/8 and 0.0.0.0
abbrev pub v4_blocks : List Block
v4_blocks =
    record { prefix = []; low = 10; high = 10 }
    ∷ record { prefix = 172 ∷ []; low = 16; high = 31 }
    ∷ record { prefix = 192 ∷ []; low = 168; high = 168 }
    ∷ record { prefix = []; low = 127; high = 127 }
    ∷ record { prefix = 0 ∷ 0 ∷ 0 ∷ []; low = 0; high = 0 }
    ∷ []

abbrev fifteen_zeros : List ℕ
fifteen_zeros = 0 ∷ 0 ∷ 0 ∷ 0 ∷ 0 ∷ 0 ∷ 0 ∷ 0 ∷ 0 ∷ 0 ∷ 0 ∷ 0 ∷ 0 ∷ 0 ∷ 0 ∷ []

-- fc00::/7, :: and ::1
abbrev pub v6_blocks : List Block
v6_blocks =
    record { prefix = []; low = 252; high = 253 }
    ∷ record { prefix = fifteen_zeros; low = 0; high = 1 }
    ∷ []

-- An IPv4 address stands alone or in an IPv6 address.
abbrev pub is_local : List ℕ → Bool
is_local ip =
    if length ip == 4
    then is_in v4_blocks ip
    else if starts_with in_v6 ip
    then is_in v4_blocks (drop 12 ip)
    else is_in v6_blocks ip

-- The bytes of an address.
abbrev pub IsIp : List ℕ → Type 0
IsIp ip = ((length ip ≡ 4) ⊎ (length ip ≡ 16)) × All (λ b. b < 256) ip

-- A test of every number below `n`.
unfoldable check : ℕ → (ℕ → Bool) → Bool
check zero f = true
check (suc n) f = f n && check n f

check-below : (n : ℕ) (f : ℕ → Bool) (m : ℕ) → check n f ≡ true → m < n → f m ≡ true
unfolding check
check-below zero f m all lt = absurd (omega arith)
check-below (suc n) f m all lt = elim (Bool-cases (m == n)) [
  | inl same ↦
      let here : m ≡ n = ground (arith, same) in
      let last : f n ≡ true = ground (arith, all) in ap f here ∙ last
  | inr other ↦ check-below n f m (ground (arith, all)) (ground (arith, lt, other))
]

abbrev same_bit : Bool → Bool → Bool
same_bit true b = b
same_bit false b = if b then false else true

same_bit-eq : (a b : Bool) → same_bit a b ≡ true → a ≡ b
same_bit-eq true b h = sym h
same_bit-eq false b h = ground arith

mask_172 : (b : ℕ) → b < 256 → (bit_and b 0xf0 == 16) ≡ (leb 16 b && leb b 31)
unfolding check
mask_172 b small =
    same_bit-eq (bit_and b 0xf0 == 16) (leb 16 b && leb b 31)
      (check-below 256 (λ n. same_bit (bit_and n 0xf0 == 16) (leb 16 n && leb n 31)) b refl small)

mask_fc : (b : ℕ) → b < 256 → (bit_and b 0xfe == 0xfc) ≡ (leb 252 b && leb b 253)
unfolding check
mask_fc b small =
    same_bit-eq (bit_and b 0xfe == 0xfc) (leb 252 b && leb b 253) (
      check-below 256 (λ n. same_bit (bit_and n 0xfe == 0xfc) (leb 252 n && leb n 253)) b refl
        small)

point : (n b : ℕ) → (leb n b && leb b n) ≡ (b == n)
point n b = ground arith

-- The tests of the first loop of `FilterPrivateIPs`.
abbrev pub is_caught : List ℕ → Bool
is_caught ip = is_private ip || is_loopback ip || is_unspecified ip

local_v4 :
    (a b c d : ℕ) → b < 256 → is_caught (a ∷ b ∷ c ∷ d ∷ []) ≡ is_in v4_blocks (a ∷ b ∷ c ∷ d ∷ [])
unfolding is_private is_loopback is_unspecified to4 equal starts_in
local_v4 a b c d small =
    rw (mask_172 b small, point 10 a, point 168 b, point 127 a, point 0 d) ground arith

caught_v4 :
    (ip : List ℕ) → length ip ≡ 4 → All (λ b. b < 256) ip → is_caught ip ≡ is_in v4_blocks ip
caught_v4 [] size bytes = absurd (omega arith)
caught_v4 (a ∷ []) size bytes = absurd (omega arith)
caught_v4 (a ∷ b ∷ []) size bytes = absurd (omega arith)
caught_v4 (a ∷ b ∷ c ∷ []) size bytes = absurd (omega arith)
caught_v4 (a ∷ b ∷ c ∷ d ∷ []) size bytes = local_v4 a b c d bytes.1.0
caught_v4 (a ∷ b ∷ c ∷ d ∷ e ∷ l) size bytes = absurd (omega arith)

starts_with-equal : (ps bs : List ℕ) → equal (take (length ps) bs) ps ≡ starts_with ps bs
unfolding equal take starts_with
starts_with-equal [] bs = refl
starts_with-equal (p ∷ ps) [] = refl
starts_with-equal (p ∷ ps) (b ∷ bs) = ap (λ t. b == p && t) (starts_with-equal ps bs)

starts_in-equal :
    (ps bs : List ℕ)
    → length bs ≡ length ps + 1
    → (equal bs (ps ++ 1 ∷ []) || equal bs (ps ++ 0 ∷ [])) ≡ starts_in ps 0 1 bs
unfolding equal starts_in
starts_in-equal ps [] size = absurd (omega arith)
starts_in-equal [] (b ∷ []) size = ground arith
starts_in-equal [] (b ∷ c ∷ bs) size = absurd (omega arith)
starts_in-equal (p ∷ ps) (b ∷ bs) size = ground (arith, starts_in-equal ps bs (omega arith))

drop-All : (n : ℕ) (bs : List ℕ) → All (λ b. b < 256) bs → All (λ b. b < 256) (drop n bs)
unfolding drop
drop-All zero bs all = all
drop-All (suc n) [] all = tt
drop-All (suc n) (b ∷ bs) all = drop-All n bs all.1

length-drop : (n : ℕ) (bs : List ℕ) → length (drop n bs) ≡ length bs - n
unfolding drop
length-drop zero bs = omega arith
length-drop (suc n) [] = omega arith
length-drop (suc n) (b ∷ bs) = omega (arith, length-drop n bs)

-- An IPv4 address in an IPv6 address is tested like one that stands alone.
caught_mapped :
    (ip ip4 : List ℕ) → to4 ip ≡ some ip4 → to4 ip4 ≡ some ip4 → is_caught ip ≡ is_caught ip4
unfolding is_private is_loopback is_unspecified
caught_mapped ip ip4 e same = rw (is_private, is_loopback, is_unspecified, e, same) refl

caught_v6 :
    (ip : List ℕ)
    → length ip ≡ 16
    → All (λ b. b < 256) ip
    → to4 ip ≡ none
    → is_caught ip ≡ is_in v6_blocks ip
unfolding is_private is_loopback is_unspecified starts_in
caught_v6 [] size bytes e = absurd (omega arith)
caught_v6 (b ∷ bs) size bytes e =
    rw (is_private, is_loopback, is_unspecified, e, mask_fc b bytes.0)
      (ground (arith, size, starts_in-equal fifteen_zeros (b ∷ bs) size))

-- The tests of net.IP are those of the ranges.
pub is_caught-is_local : (ip : List ℕ) → IsIp ip → is_caught ip ≡ is_local ip
unfolding to4
is_caught-is_local ip (inl four, bytes) = rw four (caught_v4 ip four bytes)
is_caught-is_local ip (inr sixteen, bytes) = elim (Bool-cases (starts_with in_v6 ip)) [
  | inl mapped ↦
      let short : length (drop 12 ip) ≡ 4 = length-drop 12 ip ∙ omega arith in
      let e : to4 ip ≡ some (drop 12 ip) =
        rw (to4, sixteen, starts_with-equal in_v6 ip, mapped) refl in
      let same : to4 (drop 12 ip) ≡ some (drop 12 ip) = rw (to4, short) refl in
      rw (sixteen, mapped)
        (caught_mapped ip (drop 12 ip) e same ∙ caught_v4 (drop 12 ip) short (drop-All 12 ip bytes))
  | inr alone ↦
      let e : to4 ip ≡ none = rw (to4, sixteen, starts_with-equal in_v6 ip, alone) refl in
      rw (sixteen, alone) (caught_v6 ip sixteen bytes e)
]
