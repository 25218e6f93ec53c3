-- ===== src/Announce/Gossip/CborGen.antt =====
-- The functions of github.com/whyrusleeping/cbor-gen that announce/gossiptopic/cbor_message.go
-- calls, and what it documents of them: the header forms of RFC 8949, and that each read function
-- takes back what its write function wrote.
use go_legs.Prelude.{ℕ, ◌+◌, ◌*◌, ◌^◌, ◌<◌, ◌≤◌, ◌≡◌, Option, some, List, ◌∷◌, ◌++◌, length}

pub record Cbg (Cid : Type 0) : Type 0 where
  pub max_length : ℕ
  pub byte_array_max_len : ℕ
  -- `WriteMajorTypeHeaderBuf`, `CborReadHeaderBuf`
  pub write_header : ℕ → ℕ → List ℕ
  pub read_header : List ℕ → Option (ℕ × ℕ × List ℕ)
  -- `WriteCidBuf`, `ReadCid`
  pub write_cid : Cid → Option (List ℕ)
  pub read_cid : List ℕ → Option (Cid × List ℕ)
  -- `ReadString`
  pub read_string : List ℕ → Option (List ℕ × List ℕ)

pub record IsCbor {Cid : Type 0} (cbg : Cbg Cid) : Type 0 where
  pub max_length-lt : cbg.max_length < 2 ^ 64
  pub byte_array_max_len-lt : cbg.byte_array_max_len < 2 ^ 64
  -- A small argument stands in the initial byte.
  pub read_header-short :
      (maj n : ℕ) (rest : List ℕ)
      → maj < 8
      → n < 24
      → cbg.read_header ((maj * 32 + n) ∷ rest) ≡ some (maj, n, rest)
  pub read_header-write :
      (maj n : ℕ) (rest : List ℕ)
      → maj < 8
      → n < 2 ^ 64
      → cbg.read_header (cbg.write_header maj n ++ rest) ≡ some (maj, n, rest)
  pub read_cid-write :
      (c : Cid) (bytes rest : List ℕ)
      → cbg.write_cid c ≡ some bytes
      → cbg.read_cid (bytes ++ rest) ≡ some (c, rest)
  pub read_string-write :
      (s rest : List ℕ)
      → length s ≤ cbg.max_length
      → cbg.read_string (cbg.write_header 3 (length s) ++ s ++ rest) ≡ some (s, rest)
