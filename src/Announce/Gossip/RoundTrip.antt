-- ===== src/Announce/Gossip/RoundTrip.antt =====
-- announce/gossiptopic/cbor_message.go: what `MarshalCBOR` writes, `UnmarshalCBOR` reads back.
use mathlib.Core.List.{append_assoc, append-nil}
use go_legs.Prelude.{
  ℕ, ◌≤◌, ◌≡◌, refl, ap, sym, ◌∙◌, ◌==◌, if◌then◌else◌, Bool, true, false, some, List, [], ◌∷◌,
  ◌++◌, length, Result, ok, ◌>>=◌, arith, take-append, drop-append, length-append, >>=-eq-ok,
}
use go_legs.Announce.Gossip.CborGen.{Cbg, IsCbor}
use go_legs.Announce.Gossip.{
  Message, Error, write_bytes, write_addrs, write_orig_peer, marshal, read_full, read_bytes,
  read_addrs, read_orig_peer, unmarshal,
}

-- A successful write appends a chunk, from which `get` reads `a`, leaving what follows.
abbrev pub Appends {ℓ} :
    {A : Type ℓ} → (List ℕ → Result Error (A × List ℕ)) → A → List ℕ → List ℕ → Type ℓ
Appends get a w w' =
    (chunk : List ℕ) × (w' ≡ w ++ chunk) × ((rest : List ℕ) → get (chunk ++ rest) ≡ ok (a, rest))

read_full-append : (v rest : List ℕ) → read_full (length v) (v ++ rest) ≡ ok (v, rest)
unfolding read_full
read_full-append v rest =
    ground (arith, take-append v rest, drop-append v rest, length-append v rest)

regroup :
    (w a b c d e f : List ℕ)
    → (((((w ++ a) ++ b) ++ c) ++ d) ++ e) ++ f ≡ w ++ (a ++ (b ++ (c ++ (d ++ (e ++ f)))))
regroup w a b c d e f = simp append_assoc

module _ {Cid : Type 0} {cbg : Cbg Cid} (laws : IsCbor cbg) (accepts : List ℕ → List ℕ → Bool) where
  read_bytes-append :
      (v rest : List ℕ)
      → length v ≤ cbg.byte_array_max_len
      → read_bytes cbg ((cbg.write_header 2 (length v) ++ v) ++ rest) ≡ ok (v, rest)
  unfolding read_bytes
  read_bytes-append v rest fits =
      let header =
        laws.read_header-write 2 (length v) (v ++ rest) (omega arith)
          (omega (arith, laws.byte_array_max_len-lt)) in
      rw append_assoc (ground (arith, header, read_full-append v rest))

  write_bytes-Appends :
      (v w w' : List ℕ) → write_bytes cbg accepts v w ≡ ok w' → Appends (read_bytes cbg) v w w'
  unfolding write_bytes
  write_bytes-Appends v w w' e = (
    cbg.write_header 2 (length v) ++ v,
    ground (arith, append_assoc w (cbg.write_header 2 (length v)) v),
    λ rest. read_bytes-append v rest (ground arith),
  )

  write_addrs-Appends :
      (vs : List (List ℕ)) (w w' : List ℕ)
      → write_addrs cbg accepts vs w ≡ ok w'
      → Appends (read_addrs cbg (length vs)) vs w w'
  unfolding write_addrs read_addrs
  write_addrs-Appends [] w w' e = let q : w ≡ w' = cc in ([], sym (append-nil w ∙ q), λ rest. refl)
  write_addrs-Appends (v ∷ vs) w w' e =
      let (w₁, e₁, e₂) = >>=-eq-ok (write_bytes cbg accepts v w) _ e in
      let (chunk₁, p₁, r₁) = write_bytes-Appends v w w₁ e₁ in
      let (chunk₂, p₂, r₂) = write_addrs-Appends vs w₁ w' e₂ in
      (
        chunk₁ ++ chunk₂,
        (p₂ ∙ ap (λ (l : List ℕ). l ++ chunk₂) p₁ ∙ append_assoc w chunk₁ chunk₂),
        λ rest. rw (append_assoc chunk₁ chunk₂ rest, r₁ (chunk₂ ++ rest), r₂ rest) refl,
      )

  abbrev has_orig_peer : List ℕ → Bool
  has_orig_peer [] = false
  has_orig_peer (c ∷ cs) = true

  read_string-append :
      (s rest : List ℕ)
      → length s ≤ cbg.max_length
      → cbg.read_string ((cbg.write_header 3 (length s) ++ s) ++ rest) ≡ some (s, rest)
  read_string-append s rest fits = laws.read_string-write s rest fits

  write_orig_peer-Appends :
      (s w w' : List ℕ)
      → write_orig_peer cbg accepts s w ≡ ok w'
      → Appends (read_orig_peer cbg (has_orig_peer s)) s w w'
  unfolding write_orig_peer read_orig_peer
  write_orig_peer-Appends [] w w' e =
      let q : w ≡ w' = cc in ([], sym (append-nil w ∙ q), λ rest. refl)
  write_orig_peer-Appends (c ∷ cs) w w' e =
      let s : List ℕ = c ∷ cs in
      (
        cbg.write_header 3 (length s) ++ s,
        ground (arith, append_assoc w (cbg.write_header 3 (length s)) s),
        λ rest.
            let fits : length s ≤ cbg.max_length = ground arith in
            rw (read_string-append s rest fits) refl,
      )

  abbrev head : List ℕ → List ℕ
  head orig_peer = if length orig_peer == 0 then 131 ∷ [] else 132 ∷ []

  abbrev addrs_header : Message Cid → List ℕ
  addrs_header m = cbg.write_header 4 (length m.addrs)

  -- What a successful `MarshalCBOR` wrote before the addresses.
  marshal-prefix :
      (m : Message Cid) (w w' cid : List ℕ)
      → cbg.write_cid m.cid ≡ some cid
      → marshal cbg accepts m w ≡ ok w'
      → (length m.addrs ≤ cbg.max_length)
        × ((do
          w₄ ← write_addrs cbg accepts m.addrs (((w ++ head m.orig_peer) ++ cid) ++ addrs_header m)
          w₅ ← write_bytes cbg accepts m.extra_data w₄
          write_orig_peer cbg accepts m.orig_peer w₅)
            ≡ ok w')
  unfolding marshal
  marshal-prefix m w w' cid p e = ground (arith, p)

  unmarshal-append :
      (c : Cid) (vs : List (List ℕ)) (v s cid tail r₄ r₅ r₆ : List ℕ)
      → cbg.write_cid c ≡ some cid
      → length vs ≤ cbg.max_length
      → read_addrs cbg (length vs) tail ≡ ok (vs, r₄)
      → read_bytes cbg r₄ ≡ ok (v, r₅)
      → read_orig_peer cbg (has_orig_peer s) r₅ ≡ ok (s, r₆)
      → unmarshal cbg (head s ++ (cid ++ (cbg.write_header 4 (length vs) ++ tail)))
        ≡ ok (record { cid = c; addrs = vs; extra_data = v; orig_peer = s }, r₆)
  unfolding unmarshal
  unmarshal-append c vs v [] cid tail r₄ r₅ r₆ p fits e₁ e₂ e₃ =
      let count = cbg.write_header 4 (length vs) ++ tail in
      let first = laws.read_header-short 4 3 (cid ++ count) (omega arith) (omega arith) in
      let second = laws.read_cid-write c cid count p in
      let third =
        laws.read_header-write 4 (length vs) tail (omega arith)
          (omega (arith, laws.max_length-lt)) in
      ground (arith, first, second, third)
  unmarshal-append c vs v (x ∷ s) cid tail r₄ r₅ r₆ p fits e₁ e₂ e₃ =
      let count = cbg.write_header 4 (length vs) ++ tail in
      let first = laws.read_header-short 4 4 (cid ++ count) (omega arith) (omega arith) in
      let second = laws.read_cid-write c cid count p in
      let third =
        laws.read_header-write 4 (length vs) tail (omega arith)
          (omega (arith, laws.max_length-lt)) in
      ground (arith, first, second, third)

  write_cid-some :
      (m : Message Cid) (w w' : List ℕ)
      → marshal cbg accepts m w ≡ ok w'
      → (cid : List ℕ) × (cbg.write_cid m.cid ≡ some cid)
  unfolding marshal
  write_cid-some m w w' e = ground arith

  -- With a CBOR coder that reads back what it writes: if MarshalCBOR succeeds, it has appended
  -- bytes from which UnmarshalCBOR reads the same message, whatever follows them, and leaves what
  -- follows.
  pub unmarshal-marshal :
      (m : Message Cid) (w w' : List ℕ)
      → marshal cbg accepts m w ≡ ok w'
      → Appends (unmarshal cbg) m w w'
  unmarshal-marshal m w w' e =
      let (cid, p) = write_cid-some m w w' e in
      let (fits, e₁) = marshal-prefix m w w' cid p e in
      let (w₄, f₁, e₂) = >>=-eq-ok (write_addrs cbg accepts m.addrs _) _ e₁ in
      let (w₅, f₂, f₃) = >>=-eq-ok (write_bytes cbg accepts m.extra_data w₄) _ e₂ in
      let (c₁, q₁, r₁) = write_addrs-Appends m.addrs _ w₄ f₁ in
      let (c₂, q₂, r₂) = write_bytes-Appends m.extra_data w₄ w₅ f₂ in
      let (c₃, q₃, r₃) = write_orig_peer-Appends m.orig_peer w₅ w' f₃ in
      (
        head m.orig_peer ++ (cid ++ (addrs_header m ++ (c₁ ++ (c₂ ++ c₃)))),
        q₃
            ∙ ap (λ (l : List ℕ). l ++ c₃) (q₂ ∙ ap (λ (l : List ℕ). l ++ c₂) q₁)
            ∙ regroup w _ cid _ c₁ c₂ c₃,
        λ rest. simp append_assoc (
            unmarshal-append m.cid m.addrs m.extra_data m.orig_peer cid _ _ _ rest p fits
              (r₁ (c₂ ++ (c₃ ++ rest))) (r₂ (c₃ ++ rest)) (r₃ rest)),
      )
