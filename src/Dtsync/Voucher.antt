-- ===== src/Dtsync/Voucher.antt =====
-- dtsync/voucher.go and voucher_cbor_gen.go: the vouchers of a data transfer, their validation and
-- their CBOR form. A writer is the list of the bytes written, a reader the list of those left. The
-- package cbor-gen is the record `Cbg` and its `ScanForLinks`.
pub mod RoundTrip
mod Tests
use go_legs.Prelude.{
  ℕ, zero, suc, ◌==◌, if◌then◌else◌, Bool, true, false, not, ltb, Option, none, some, List, [], ◌∷◌,
  ◌++◌, length, Result, ok, err, ◌>>=◌, ◌>>◌, fail_if, or_fail,
}
use go_legs.Announce.Gossip.CborGen.{Cbg}

-- `Voucher`, whose head is nil or a CID, and `VoucherResult`.
pub record Voucher (Cid : Type 0) : Type 0 where
  pub head : Option Cid

pub record VoucherResult : Type 0 where
  pub code : ℕ

pub data CborError : Type 0 where
  could_not_write field_too_long bad_head could_not_read not_map map_too_large not_unsigned :
      CborError

-- "Head", "Code"
abbrev pub head_name : List ℕ
head_name = 72 ∷ 101 ∷ 97 ∷ 100 ∷ []

abbrev pub code_name : List ℕ
code_name = 67 ∷ 111 ∷ 100 ∷ 101 ∷ []

abbrev pub cbor_null : ℕ
cbor_null = 246

unfoldable pub is_name : List ℕ → List ℕ → Bool
is_name [] [] = true
is_name (x ∷ xs) (y ∷ ys) = let rest = is_name xs ys in if x == y then rest else false
is_name _ _ = false

module _ {Cid : Type 0} (cbg : Cbg Cid) (accepts : List ℕ → List ℕ → Bool) where
  abbrev put_bytes : List ℕ → List ℕ → Result CborError (List ℕ)
  put_bytes chunk w = if accepts w chunk then ok (w ++ chunk) else err could_not_write

  -- The map of one entry, and its key.
  abbrev put_name : List ℕ → List ℕ → Result CborError (List ℕ)
  put_name name w = do
    w₁ ← put_bytes (161 ∷ []) w
    fail_if (ltb cbg.max_length (length name)) field_too_long
    w₂ ← put_bytes (cbg.write_header 3 (length name)) w₁
    put_bytes name w₂

  unfoldable pub put_head : Option Cid → List ℕ → Result CborError (List ℕ)
  put_head none w = put_bytes (cbor_null ∷ []) w
  put_head (some c) w = do bytes ← or_fail (cbg.write_cid c) bad_head; put_bytes bytes w

  -- `MarshalCBOR` of a `*Voucher`, where `none` is nil.
  unfoldable pub marshal_voucher : Option (Voucher Cid) → List ℕ → Result CborError (List ℕ)
  unfolding put_head
  marshal_voucher none w = put_bytes (cbor_null ∷ []) w
  marshal_voucher (some v) w = do w₁ ← put_name head_name w; put_head v.head w₁

  -- `MarshalCBOR` of a `*VoucherResult`.
  unfoldable pub marshal_result : Option VoucherResult → List ℕ → Result CborError (List ℕ)
  marshal_result none w = put_bytes (cbor_null ∷ []) w
  marshal_result (some r) w = do w₁ ← put_name code_name w; put_bytes (cbg.write_header 0 r.code) w₁

module _ {Cid : Type 0} (cbg : Cbg Cid) (scan_for_links : List ℕ → List ℕ) where
  -- The head of a voucher: the byte of null, or a CID that begins at that byte.
  unfoldable pub get_head : List ℕ → Result CborError (Option Cid × List ℕ)
  get_head [] = err could_not_read
  get_head (b ∷ r) =
      if b == cbor_null
      then ok (none, r)
      else (or_fail (cbg.read_cid (b ∷ r)) bad_head >>= λ p. ok (some p.0, p.1))

  -- The loops over the fields, for the number of fields left.
  unfoldable pub get_voucher_fields :
      ℕ → Voucher Cid → List ℕ → Result CborError (Voucher Cid × List ℕ)
  unfolding get_head is_name
  get_voucher_fields zero v r = ok (v, r)
  get_voucher_fields (suc n) v r = do
    (name, r₁) ← or_fail (cbg.read_string r) could_not_read
    (v₁, r₂) ←
        if is_name name head_name
        then (get_head r₁ >>= λ p.
            ok (elim p.0 [ none ↦ v | some c ↦ record { head = some c } ], p.1))
        else ok (v, scan_for_links r₁)
    get_voucher_fields n v₁ r₂

  unfoldable pub get_result_fields :
      ℕ → VoucherResult → List ℕ → Result CborError (VoucherResult × List ℕ)
  unfolding is_name
  get_result_fields zero v r = ok (v, r)
  get_result_fields (suc n) v r = do
    (name, r₁) ← or_fail (cbg.read_string r) could_not_read
    (v₁, r₂) ←
        if is_name name code_name
        then (or_fail (cbg.read_header r₁) could_not_read >>= λ p.
            if p.0 == 0 then ok (record { code = p.1 }, p.2) else err not_unsigned)
        else ok (v, scan_for_links r₁)
    get_result_fields n v₁ r₂

  -- `UnmarshalCBOR`: the voucher, and the bytes that it leaves.
  unfoldable pub unmarshal_voucher : List ℕ → Result CborError (Voucher Cid × List ℕ)
  unfolding get_voucher_fields
  unmarshal_voucher r = do
    (maj, extra, r₁) ← or_fail (cbg.read_header r) could_not_read
    fail_if (not (maj == 5)) not_map
    fail_if (ltb cbg.max_length extra) map_too_large
    get_voucher_fields extra (record { head = none }) r₁

  unfoldable pub unmarshal_result : List ℕ → Result CborError (VoucherResult × List ℕ)
  unfolding get_result_fields
  unmarshal_result r = do
    (maj, extra, r₁) ← or_fail (cbg.read_header r) could_not_read
    fail_if (not (maj == 5)) not_map
    fail_if (ltb cbg.max_length extra) map_too_large
    get_result_fields extra (record { code = 0 }) r₁

pub data Refusal : Type 0 where
  invalid peer_not_allowed : Refusal

-- `ValidatePush`: a publisher takes no data.
unfoldable pub validate_push :
    {Cid Peer : Type 0} → Peer → Voucher Cid → Result Refusal VoucherResult
validate_push p v = err invalid

-- `ValidatePull`, with the function `allowPeer` or nil.
unfoldable pub validate_pull :
    {Cid Peer : Type 0} → Option (Peer → Bool) → Peer → Voucher Cid → Result Refusal VoucherResult
validate_pull allow_peer p v = elim v.head [
  | none ↦ err invalid
  | some c ↦ elim allow_peer [
    | none ↦ ok (record { code = 0 })
    | some allow ↦ if allow p then ok (record { code = 0 }) else err peer_not_allowed
  ]
]
