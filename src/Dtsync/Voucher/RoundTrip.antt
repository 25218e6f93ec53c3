-- ===== src/Dtsync/Voucher/RoundTrip.antt =====
-- dtsync/voucher_cbor_gen.go: what the marshal functions write, the unmarshal functions read back.
use mathlib.Core.List.{append_assoc}
use go_legs.Prelude.{
  ℕ, ◌<◌, ◌≤◌, ◌^◌, ◌≡◌, ◌==◌, Bool, false, Option, none, some, List, [], ◌∷◌, ◌++◌, length, Result,
  ok, arith, Option-cases, inl, inr,
}
use go_legs.Announce.Gossip.CborGen.{Cbg, IsCbor}
use go_legs.Dtsync.Voucher.{
  Voucher, VoucherResult, CborError, head_name, code_name, cbor_null, is_name, put_head,
  marshal_voucher, marshal_result, get_head, get_voucher_fields, get_result_fields,
  unmarshal_voucher, unmarshal_result,
}

regroup : (w a b c d : List ℕ) → (((w ++ a) ++ b) ++ c) ++ d ≡ w ++ (a ++ (b ++ (c ++ d)))
regroup w a b c d = simp append_assoc

-- The bytes of a map with one entry.
abbrev entry : {Cid : Type 0} → Cbg Cid → List ℕ → List ℕ → List ℕ
entry cbg name value = 161 ∷ (cbg.write_header 3 (length name) ++ (name ++ value))

-- `chunk` is what was appended, and from it `get` reads `a` and leaves what follows.
abbrev pub Appends :
    {A : Type 0} → (List ℕ → Result CborError (A × List ℕ)) → A → List ℕ → List ℕ → Type 0
Appends get a w w' =
    (chunk : List ℕ) × (w' ≡ w ++ chunk) × ((rest : List ℕ) → get (chunk ++ rest) ≡ ok (a, rest))

module _ {Cid : Type 0} {cbg : Cbg Cid} (laws : IsCbor cbg) where
  -- Header and key of an entry are read back.
  read_entry :
      (name value rest : List ℕ)
      → length name ≤ cbg.max_length
      → (cbg.read_header (entry cbg name value ++ rest)
          ≡ some (5, 1, cbg.write_header 3 (length name) ++ (name ++ (value ++ rest))))
        × (cbg.read_string (cbg.write_header 3 (length name) ++ (name ++ (value ++ rest)))
            ≡ some (name, value ++ rest))
  read_entry name value rest fits =
      let header : List ℕ = cbg.write_header 3 (length name) in
      let shape : (header ++ (name ++ value)) ++ rest ≡ header ++ (name ++ (value ++ rest)) =
        simp append_assoc in
      let short =
        laws.read_header-short 5 1 (header ++ (name ++ (value ++ rest))) (omega arith)
          (omega arith) in
      let text = laws.read_string-write name (value ++ rest) fits in
      (rw shape short, rw (← append_assoc) text)

  module _ (accepts : List ℕ → List ℕ → Bool) (scan_for_links : List ℕ → List ℕ) where
    -- The CBOR of a CID begins with a tag, and not with the byte of null.
    abbrev pub IsTagged : Type 0
    IsTagged =
        (c : Cid) (bytes : List ℕ)
        → cbg.write_cid c ≡ some bytes
        → (b : ℕ) × (rest : List ℕ) × (bytes ≡ b ∷ rest) × ((b == cbor_null) ≡ false)

    head-Appends :
        IsTagged
        → (o : Option Cid) (w w' : List ℕ)
        → marshal_voucher cbg accepts (some (record { head = o })) w ≡ ok w'
        → Appends (unmarshal_voucher cbg scan_for_links) (record { head = o }) w w'
    unfolding marshal_voucher unmarshal_voucher get_voucher_fields put_head get_head is_name
    head-Appends tagged none w w' ran = (
      entry cbg head_name (cbor_null ∷ []),
      ground (arith, regroup w (161 ∷ []) (cbg.write_header 3 4) head_name (cbor_null ∷ [])),
      λ rest.
          let (header, text) = read_entry head_name (cbor_null ∷ []) rest (ground arith) in
          ground (arith, header, text),
    )
    head-Appends tagged (some c) w w' ran = elim (Option-cases (cbg.write_cid c)) [
      | inl bad ↦ absurd (ground (arith, bad))
      | inr (bytes, e) ↦ (
        entry cbg head_name bytes,
        ground (arith, e, regroup w (161 ∷ []) (cbg.write_header 3 4) head_name bytes),
        λ rest.
            let (header, text) = read_entry head_name bytes rest (ground arith) in
            let (b, tail, first, other) = tagged c bytes e in
            let back = laws.read_cid-write c bytes rest e in
            ground (arith, header, text, first, other, back),
      )
    ]

    result-Appends :
        (r : VoucherResult) (w w' : List ℕ)
        → r.code < 2 ^ 64
        → marshal_result cbg accepts (some r) w ≡ ok w'
        → Appends (unmarshal_result cbg scan_for_links) r w w'
    unfolding marshal_result unmarshal_result get_result_fields is_name
    result-Appends r w w' lt ran = (
      entry cbg code_name (cbg.write_header 0 r.code),
      ground (
        arith,
        regroup w (161 ∷ []) (cbg.write_header 3 4) code_name (cbg.write_header 0 r.code),
      ),
      λ rest.
          let (header, text) =
            read_entry code_name (cbg.write_header 0 r.code) rest (ground arith) in
          let back = laws.read_header-write 0 r.code rest (omega arith) lt in
          ground (arith, header, text, back),
    )

    -- With a CBOR coder that IsCbor describes, whose CIDs begin with a tag and not with the byte of
    -- null: what the marshal functions append for a voucher, and for a voucher result whose code is a
    -- uint64, the unmarshal functions read back, and leave what follows.
    pub unmarshal_voucher-marshal_voucher :
        IsTagged
        → (v : Voucher Cid) (r : VoucherResult) (w v_bytes r_bytes : List ℕ) → r.code < 2 ^ 64
        → marshal_voucher cbg accepts (some v) w ≡ ok v_bytes
        → marshal_result cbg accepts (some r) w ≡ ok r_bytes
        → Appends (unmarshal_voucher cbg scan_for_links) v w v_bytes
          × Appends (unmarshal_result cbg scan_for_links) r w r_bytes
    unmarshal_voucher-marshal_voucher tagged v r w v_bytes r_bytes lt ran ran' =
        (head-Appends tagged v.head w v_bytes ran, result-Appends r w r_bytes lt ran')
