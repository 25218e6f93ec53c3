-- ===== src/Announce/Gossip.antt =====
-- announce/gossiptopic: the payload of a pubsub message and its CBOR form. A writer is the list of
-- the bytes written, a reader the list of those left. The package cbor-gen is the record `Cbg`.
pub mod CborGen
pub mod RoundTrip
pub mod Limits
pub mod Addrs
pub mod Concrete
use go_legs.Prelude.{
  ℕ, zero, suc, ◌*◌, ◌+◌, ◌==◌, if◌then◌else◌, Bool, true, false, not, ltb, Option, none, some,
  List, [], ◌∷◌, ◌++◌, map, length, take, drop, Result, ok, err, ◌>>=◌, ◌>>◌, fail_if, or_fail,
}
use CborGen.{Cbg}

-- `Message`. Strings are their bytes.
pub record Message (Cid : Type 0) : Type 0 where
  pub cid : Cid
  pub addrs : List (List ℕ)
  pub extra_data : List ℕ
  pub orig_peer : List ℕ

pub data Error : Type 0 where
  write_failed bad_cid slice_too_long bytes_too_long string_too_long : Error
  read_failed not_array too_many_fields too_few_fields not_bytes unexpected_eof : Error

-- Major types of CBOR.
abbrev pub maj_byte_string : ℕ
maj_byte_string = 2

abbrev pub maj_text_string : ℕ
maj_text_string = 3

abbrev pub maj_array : ℕ
maj_array = 4

-- `w.Write(chunk)`, where the writer decides whether it takes the chunk.
abbrev write : (List ℕ → List ℕ → Bool) → List ℕ → List ℕ → Result Error (List ℕ)
write accepts chunk w = if accepts w chunk then ok (w ++ chunk) else err write_failed

module _ {Cid : Type 0} (cbg : Cbg Cid) (accepts : List ℕ → List ℕ → Bool) where
  unfoldable pub write_bytes : List ℕ → List ℕ → Result Error (List ℕ)
  write_bytes v w = do
    fail_if (ltb cbg.byte_array_max_len (length v)) bytes_too_long
    w₁ ← write accepts (cbg.write_header maj_byte_string (length v)) w
    write accepts v w₁

  unfoldable pub write_addrs : List (List ℕ) → List ℕ → Result Error (List ℕ)
  unfolding write_bytes
  write_addrs [] w = ok w
  write_addrs (v ∷ vs) w = do w₁ ← write_bytes v w; write_addrs vs w₁

  unfoldable pub write_orig_peer : List ℕ → List ℕ → Result Error (List ℕ)
  write_orig_peer [] w = ok w
  write_orig_peer (c ∷ cs) w = do
    fail_if (ltb cbg.max_length (length (c ∷ cs))) string_too_long
    w₁ ← write accepts (cbg.write_header maj_text_string (length (c ∷ cs))) w
    write accepts (c ∷ cs) w₁

  -- `MarshalCBOR`, of a message that is not nil.
  unfoldable pub marshal : Message Cid → List ℕ → Result Error (List ℕ)
  unfolding write_addrs write_orig_peer
  marshal m w = do
    w₁ ← write accepts (if length m.orig_peer == 0 then 131 ∷ [] else 132 ∷ []) w
    cid ← or_fail (cbg.write_cid m.cid) bad_cid
    w₂ ← write accepts cid w₁
    fail_if (ltb cbg.max_length (length m.addrs)) slice_too_long
    w₃ ← write accepts (cbg.write_header maj_array (length m.addrs)) w₂
    w₄ ← write_addrs m.addrs w₃
    w₅ ← write_bytes m.extra_data w₄
    write_orig_peer m.orig_peer w₅

-- `io.ReadFull` into a slice of length `n`.
unfoldable pub read_full : ℕ → List ℕ → Result Error (List ℕ × List ℕ)
read_full n r = if ltb (length r) n then err unexpected_eof else ok (take n r, drop n r)

module _ {Cid : Type 0} (cbg : Cbg Cid) where
  unfoldable pub read_bytes : List ℕ → Result Error (List ℕ × List ℕ)
  unfolding read_full
  read_bytes r = do
    (maj, extra, r₁) ← or_fail (cbg.read_header r) read_failed
    fail_if (ltb cbg.byte_array_max_len extra) bytes_too_long
    fail_if (not (maj == maj_byte_string)) not_bytes
    read_full extra r₁

  -- The loop that decodes `m.Addrs`, for the number of addresses left.
  unfoldable pub read_addrs : ℕ → List ℕ → Result Error (List (List ℕ) × List ℕ)
  unfolding read_bytes
  read_addrs zero r = ok ([], r)
  read_addrs (suc n) r = do (v, r₁) ← read_bytes r; (vs, r₂) ← read_addrs n r₁; ok (v ∷ vs, r₂)

  unfoldable pub read_orig_peer : Bool → List ℕ → Result Error (List ℕ × List ℕ)
  read_orig_peer false r = ok ([], r)
  read_orig_peer true r = or_fail (cbg.read_string r) read_failed

  -- `UnmarshalCBOR`: the message, and the bytes that it leaves.
  unfoldable pub unmarshal : List ℕ → Result Error (Message Cid × List ℕ)
  unfolding read_addrs read_orig_peer
  unmarshal r = do
    (maj, extra, r₁) ← or_fail (cbg.read_header r) read_failed
    fail_if (not (maj == maj_array)) not_array
    fail_if (ltb 4 extra) too_many_fields
    fail_if (ltb extra 3) too_few_fields
    let has_orig_peer = extra == 4
    (cid, r₂) ← or_fail (cbg.read_cid r₁) bad_cid
    (maj', count, r₃) ← or_fail (cbg.read_header r₂) read_failed
    fail_if (ltb cbg.max_length count) slice_too_long
    fail_if (not (maj' == maj_array)) not_array
    (addrs, r₄) ← read_addrs count r₃
    (extra_data, r₅) ← read_bytes r₄
    (orig_peer, r₆) ← read_orig_peer has_orig_peer r₅
    ok (record { cid = cid; addrs = addrs; extra_data = extra_data; orig_peer = orig_peer }, r₆)
