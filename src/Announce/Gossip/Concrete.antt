-- ===== src/Announce/Gossip/Concrete.antt =====
-- The properties of announce/gossiptopic at concrete messages, with a CBOR coder for `Cbg` whose
-- headers have the forms of one, two and nine bytes. A CID is a byte string that is not empty.
use mathlib.Core.List.{append_assoc}
use go_legs.Prelude.{
  ℕ, ◌*◌, ◌+◌, ◌/◌, ◌%◌, ◌<◌, ◌≤◌, ◌^◌, ◌≡◌, refl, ◌==◌, if◌then◌else◌, true, ltb, Option, none,
  some, List, [], ◌∷◌, ◌++◌, length, take, drop, ok, err, arith, length-append, Bool-cases, ltb→lt,
  leb, ◌&&◌, inl, inr, ◌↔◌, is_some, is_ok, take-append, drop-append,
}
use go_legs.Announce.Gossip.CborGen.{Cbg, IsCbor}
use go_legs.Announce.Gossip.{Message, Error, marshal, unmarshal}
use go_legs.Announce.Gossip.Addrs.{set_addrs, get_addrs, get_addrs-set_addrs}
use go_legs.Announce.Gossip.RoundTrip.{Appends, unmarshal-marshal}
use go_legs.Announce.Gossip.Limits.{IsWithin, unmarshal-IsWithin, marshal-succeeds, always}

unfoldable pub put_header : ℕ → ℕ → List ℕ
put_header maj n =
    if ltb n 24
    then (maj * 32 + n) ∷ []
    else if ltb n 256
    then (maj * 32 + 24) ∷ n ∷ []
    else ((maj * 32 + 27)
        ∷ (n / 2 ^ 56)
        ∷ (n / 2 ^ 48 % 256)
        ∷ (n / 2 ^ 40 % 256)
        ∷ (n / 2 ^ 32 % 256)
        ∷ (n / 2 ^ 24 % 256)
        ∷ (n / 2 ^ 16 % 256)
        ∷ (n / 2 ^ 8 % 256)
        ∷ (n % 256)
        ∷ [])

get_eight : ℕ → List ℕ → Option (ℕ × ℕ × List ℕ)
get_eight maj (a ∷ b ∷ c ∷ d ∷ e ∷ f ∷ g ∷ h ∷ rest) = some (
  maj,
  a * 2 ^ 56 + b * 2 ^ 48 + c * 2 ^ 40 + d * 2 ^ 32 + e * 2 ^ 24 + f * 2 ^ 16 + g * 2 ^ 8 + h,
  rest,
)
get_eight maj _ = none

get_one : ℕ → List ℕ → Option (ℕ × ℕ × List ℕ)
get_one maj [] = none
get_one maj (n ∷ rest) = some (maj, n, rest)

get_header : List ℕ → Option (ℕ × ℕ × List ℕ)
unfolding get_eight get_one
get_header [] = none
get_header (b ∷ rest) =
    if ltb (b % 32) 24
    then some (b / 32, b % 32, rest)
    else if b % 32 == 24
    then get_one (b / 32) rest
    else if b % 32 == 27
    then get_eight (b / 32) rest
    else none

get_header-short :
    (maj n : ℕ) (rest : List ℕ)
    → maj < 8
    → n < 24
    → get_header ((maj * 32 + n) ∷ rest) ≡ some (maj, n, rest)
unfolding get_header
get_header-short maj n rest p q =
    let high : (maj * 32 + n) / 32 ≡ maj = omega arith in
    let low : (maj * 32 + n) % 32 ≡ n = omega arith in ground arith

from_eight :
    (n : ℕ)
    → n < 2 ^ 64
    → n / 2 ^ 56 * 2 ^ 56
        + n / 2 ^ 48 % 256 * 2 ^ 48
        + n / 2 ^ 40 % 256 * 2 ^ 40
        + n / 2 ^ 32 % 256 * 2 ^ 32
        + n / 2 ^ 24 % 256 * 2 ^ 24
        + n / 2 ^ 16 % 256 * 2 ^ 16
        + n / 2 ^ 8 % 256 * 2 ^ 8
        + n % 256
      ≡ n
from_eight n h = omega arith

get_header-put :
    (maj n : ℕ) (rest : List ℕ)
    → maj < 8
    → n < 2 ^ 64
    → get_header (put_header maj n ++ rest) ≡ some (maj, n, rest)
unfolding get_header put_header
get_header-put maj n rest p q =
    let high : (k : ℕ) → k < 32 → (maj * 32 + k) / 32 ≡ maj = λ k h. omega arith in
    let low : (k : ℕ) → k < 32 → (maj * 32 + k) % 32 ≡ k = λ k h. omega arith in
    elim (Bool-cases (ltb n 24)) [
      | inl short ↦ rw short (get_header-short maj n rest p (ltb→lt n 24 short))
      | inr long ↦ elim (Bool-cases (ltb n 256)) [
        | inl byte ↦ rw (long, byte) (ground (arith, high 24 (omega arith), low 24 (omega arith)))
        | inr wide ↦
            rw (long, wide)
              (ground (arith, high 27 (omega arith), low 27 (omega arith), from_eight n q))
      ]
    ]

-- A byte string of the major type `maj`.
unfoldable pub get_string : ℕ → List ℕ → Option (List ℕ × List ℕ)
unfolding get_header
get_string maj r = elim (get_header r) [
  | none ↦ none
  | some (m, n, rest) ↦
      if m == maj && leb n (length rest) then some (take n rest, drop n rest) else none
]

get_string-put :
    (maj : ℕ) (s rest : List ℕ)
    → maj < 8
    → length s < 2 ^ 64
    → get_string maj ((put_header maj (length s) ++ s) ++ rest) ≡ some (s, rest)
unfolding get_string
get_string-put maj s rest p q =
    rw
      (
        append_assoc (put_header maj (length s)) s rest,
        get_string,
        get_header-put maj (length s) (s ++ rest) p q,
      )
      (ground (arith, length-append s rest, take-append s rest, drop-append s rest))

unfoldable pub put_cid : List ℕ → Option (List ℕ)
unfolding put_header
put_cid [] = none
put_cid (b ∷ bs) =
    if ltb (length (b ∷ bs)) 128 then some (put_header 2 (length (b ∷ bs)) ++ b ∷ bs) else none

get_cid-put :
    (c bytes rest : List ℕ) → put_cid c ≡ some bytes → get_string 2 (bytes ++ rest) ≡ some (c, rest)
unfolding put_cid
get_cid-put [] bytes rest e = cc
get_cid-put (b ∷ bs) bytes rest e =
    let whole : put_header 2 (length (b ∷ bs)) ++ b ∷ bs ≡ bytes = ground arith in
    rw (← whole) (get_string-put 2 (b ∷ bs) rest (omega arith) (ground arith))

unfoldable pub coder : Cbg (List ℕ)
unfolding get_string put_cid
coder = record {
  max_length = 8192;
  byte_array_max_len = 2097152;
  write_header = put_header;
  read_header = get_header;
  write_cid = put_cid;
  read_cid = get_string 2;
  read_string = get_string 3;
}

pub coder-IsCbor : IsCbor coder
unfolding coder
coder-IsCbor = record {
  max_length-lt = omega arith;
  byte_array_max_len-lt = omega arith;
  read_header-short = get_header-short;
  read_header-write = get_header-put;
  read_cid-write = get_cid-put;
  read_string-write = λ s rest h. get_string-put 3 s rest (omega arith) (omega arith);
}

-- A republished message with two addresses, the second empty.
abbrev republished : Message (List ℕ)
republished = record {
  cid = 1 ∷ 85 ∷ 18 ∷ [];
  addrs = (4 ∷ 127 ∷ 0 ∷ 0 ∷ 1 ∷ []) ∷ [] ∷ [];
  extra_data = [];
  orig_peer = b'Q' ∷ b'm' ∷ [];
}

abbrev encoded : List ℕ
encoded = 132 ∷ 67 ∷ 1 ∷ 85 ∷ 18 ∷ 130 ∷ 69 ∷ 4 ∷ 127 ∷ 0 ∷ 0 ∷ 1 ∷ 64 ∷ 64 ∷ 98 ∷ b'Q' ∷ b'm' ∷ []

marshal-republished : marshal coder always republished [] ≡ ok encoded
unfolding coder marshal
marshal-republished = refl

unmarshal-encoded : unmarshal coder (encoded ++ 7 ∷ []) ≡ ok (republished, 7 ∷ [])
unfolding coder unmarshal take drop
unmarshal-encoded = refl

-- An array of two fields.
encoded_too_few : unmarshal coder (130 ∷ 67 ∷ []) ≡ err Error.too_few_fields
unfolding coder unmarshal take drop
encoded_too_few = refl

unmarshal-marshal_example : Appends (unmarshal coder) republished [] encoded
unmarshal-marshal_example =
    unmarshal-marshal coder-IsCbor always republished [] encoded marshal-republished

unmarshal-IsWithin_example : IsWithin coder republished
unmarshal-IsWithin_example =
    unmarshal-IsWithin coder (encoded ++ 7 ∷ []) republished (7 ∷ []) unmarshal-encoded

marshal-succeeds_example : (is_ok (marshal coder always republished []) ≡ true) ↔ (
    IsWithin coder republished
    × (is_some (coder.write_cid republished.cid) ≡ true)
    × (length republished.orig_peer ≤ coder.max_length))
marshal-succeeds_example = marshal-succeeds coder republished []

get_addrs-set_addrs_example :
    get_addrs (λ v. some v) ((4 ∷ 1 ∷ []) ∷ [] ∷ []) ≡ some (some (4 ∷ 1 ∷ []) ∷ some [] ∷ [])
unfolding set_addrs
get_addrs-set_addrs_example =
    get_addrs-set_addrs (λ a. a) (λ v. some v) (λ a. refl) (some (4 ∷ 1 ∷ []) ∷ some [] ∷ [])
      ((4 ∷ 1 ∷ []) ∷ [] ∷ []) refl
