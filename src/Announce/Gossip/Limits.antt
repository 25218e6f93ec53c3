-- ===== src/Announce/Gossip/Limits.antt =====
-- announce/gossiptopic/cbor_message.go: the limits on what is written and read.
use go_legs.Prelude.{
  ℕ, zero, suc, ◌≤◌, ◌≡◌, refl, ap, subst, is_ok, ◌==◌, if◌then◌else◌, Bool, true, ltb, some, List,
  [], ◌∷◌, ◌++◌, length, Result, ok, err, ◌>>=◌, arith, >>=-eq-ok, Option-cases, Result-cases, inl,
  inr, All, ◌↔◌, length-take-le, is_some,
}
use go_legs.Announce.Gossip.CborGen.{Cbg}
use go_legs.Announce.Gossip.{
  Message, Error, write_bytes, write_addrs, write_orig_peer, marshal, read_full, read_bytes,
  read_addrs, read_orig_peer, unmarshal,
}

-- A buffer takes every chunk.
abbrev pub always : List ℕ → List ℕ → Bool
always w chunk = true

module _ {Cid : Type 0} (cbg : Cbg Cid) where
  -- The limits of `MarshalCBOR` on a message.
  pub record IsWithin (m : Message Cid) : Type 0 where
    pub count : length m.addrs ≤ cbg.max_length
    pub each : All (λ v. length v ≤ cbg.byte_array_max_len) m.addrs
    pub extra : length m.extra_data ≤ cbg.byte_array_max_len

  read_full-le : (n : ℕ) (r v r' : List ℕ) → read_full n r ≡ ok (v, r') → length v ≤ n
  unfolding read_full
  read_full-le n r v r' e = ground (arith, length-take-le n r)

  read_bytes-le :
      (r v r' : List ℕ) → read_bytes cbg r ≡ ok (v, r') → length v ≤ cbg.byte_array_max_len
  unfolding read_bytes
  read_bytes-le r v r' e = elim (Option-cases (cbg.read_header r)) [
    | inl failed ↦ ground (arith, failed)
    | inr ((maj, extra, r₁), h) ↦ ground (arith, h, read_full-le extra r₁ v r')
  ]

  read_addrs-IsWithin :
      (n : ℕ) (r : List ℕ) (vs : List (List ℕ)) (r' : List ℕ)
      → read_addrs cbg n r ≡ ok (vs, r')
      → (length vs ≡ n) × All (λ v. length v ≤ cbg.byte_array_max_len) vs
  unfolding read_addrs
  read_addrs-IsWithin zero r vs r' e = ground arith
  read_addrs-IsWithin (suc n) r vs r' e =
      let ((v, r₁), e₁, e₂) = >>=-eq-ok (read_bytes cbg r) _ e in
      let ((vs', r₂), e₃, e₄) = >>=-eq-ok (read_addrs cbg n r₁) _ e₂ in
      let q : v ∷ vs' ≡ vs = cc in
      let ih = read_addrs-IsWithin n r₁ vs' r₂ e₃ in
      subst (λ l. (length l ≡ suc n) × All (λ v. length v ≤ cbg.byte_array_max_len) l) q
        (ap suc ih.0, (read_bytes-le r v r₁ e₁, ih.1))

  -- What is read behind the header of the addresses.
  read_fields : (n : ℕ) (c : Cid) (six : Bool) (r : List ℕ) → Result Error (Message Cid × List ℕ)
  read_fields n c six r = do
    (addrs, r₄) ← read_addrs cbg n r
    (extra_data, r₅) ← read_bytes cbg r₄
    (orig_peer, r₆) ← read_orig_peer cbg six r₅
    ok (record { cid = c; addrs = addrs; extra_data = extra_data; orig_peer = orig_peer }, r₆)

  read_fields-IsWithin :
      (n : ℕ) (c : Cid) (six : Bool) (r : List ℕ) (m : Message Cid) (r' : List ℕ)
      → n ≤ cbg.max_length
      → read_fields n c six r ≡ ok (m, r')
      → IsWithin m
  unfolding read_fields
  read_fields-IsWithin n c six r m r' fits e =
      let ((vs, r₄), e₁, f₁) = >>=-eq-ok (read_addrs cbg n r) _ e in
      let ((v, r₅), e₂, f₂) = >>=-eq-ok (read_bytes cbg r₄) _ f₁ in
      let ((s, r₆), e₃, f₃) = >>=-eq-ok (read_orig_peer cbg six r₅) _ f₂ in
      let whole : record { cid = c; addrs = vs; extra_data = v; orig_peer = s } ≡ m = cc in
      subst IsWithin whole (record {
        count = rw ((read_addrs-IsWithin n r vs r₄ e₁).0) fits;
        each = (read_addrs-IsWithin n r vs r₄ e₁).1;
        extra = read_bytes-le r₄ v r₅ e₂;
      })

  -- Whatever the bytes, a message that UnmarshalCBOR accepts is within the limits of cbor-gen:
  -- the count of the addresses, and the length of each and of the extra data.
  pub unmarshal-IsWithin :
      (r : List ℕ) (m : Message Cid) (r' : List ℕ) → unmarshal cbg r ≡ ok (m, r') → IsWithin m
  unfolding unmarshal
  unmarshal-IsWithin r m r' e = elim (Option-cases (cbg.read_header r)) [
    | inl failed ↦ ground (arith, failed)
    | inr ((maj, extra, r₁), h₁) ↦ elim (Option-cases (cbg.read_cid r₁)) [
      | inl failed ↦ ground (arith, h₁, failed)
      | inr ((c, r₂), h₂) ↦ elim (Option-cases (cbg.read_header r₂)) [
        | inl failed ↦ ground (arith, h₁, h₂, failed)
        | inr ((maj', count, r₃), h₃) ↦
            read_fields-IsWithin count c (extra == 4) r₃ m r' (ground (arith, h₁, h₂, h₃))
              (unfold read_fields in ground (arith, h₁, h₂, h₃))
      ]
    ]
  ]

  write_bytes-always :
      (v w : List ℕ)
      → write_bytes cbg always v w ≡ (
          if ltb cbg.byte_array_max_len (length v)
          then err Error.bytes_too_long
          else ok ((w ++ cbg.write_header 2 (length v)) ++ v))
  unfolding write_bytes
  write_bytes-always v w = ground arith

  write_addrs-succeeds :
      (vs : List (List ℕ)) (w : List ℕ)
      → (is_ok (write_addrs cbg always vs w) ≡ true)
        ↔ All (λ v. length v ≤ cbg.byte_array_max_len) vs
  unfolding write_addrs
  write_addrs-succeeds [] w = (λ _. tt, λ _. refl)
  write_addrs-succeeds (v ∷ vs) w =
      let next = (w ++ cbg.write_header 2 (length v)) ++ v in
      let ih = write_addrs-succeeds vs next in
      (
        λ h. ground (arith, write_bytes-always v w, ih.0),
        λ h. ground (arith, write_bytes-always v w, ih.1 h.1),
      )

  write_orig_peer-succeeds :
      (s w : List ℕ) → (is_ok (write_orig_peer cbg always s w) ≡ true) ↔ (length s ≤ cbg.max_length)
  unfolding write_orig_peer
  write_orig_peer-succeeds [] w = (λ _. omega arith, λ _. refl)
  write_orig_peer-succeeds (c ∷ cs) w = (λ h. ground arith, λ h. ground arith)

  -- What follows the header of the addresses.
  write_fields : Message Cid → List ℕ → Result Error (List ℕ)
  write_fields m w = do
    w₄ ← write_addrs cbg always m.addrs w
    w₅ ← write_bytes cbg always m.extra_data w₄
    write_orig_peer cbg always m.orig_peer w₅

  abbrev FieldsFit : Message Cid → Type 0
  FieldsFit m =
      All (λ v. length v ≤ cbg.byte_array_max_len) m.addrs
      × (length m.extra_data ≤ cbg.byte_array_max_len)
      × (length m.orig_peer ≤ cbg.max_length)

  write_fields-succeeds :
      (m : Message Cid) (w : List ℕ) → (is_ok (write_fields m w) ≡ true) ↔ FieldsFit m
  unfolding write_fields
  write_fields-succeeds m w =
      let all = write_addrs-succeeds m.addrs w in
      elim (Result-cases (write_addrs cbg always m.addrs w)) [
        | inl (w₄, h) ↦
            let next = (w₄ ++ cbg.write_header 2 (length m.extra_data)) ++ m.extra_data in
            let last = write_orig_peer-succeeds m.orig_peer next in
            let step = write_bytes-always m.extra_data w₄ in
            (
              λ e. (all.0 (rw h refl), ground (arith, h, step), last.0 (ground (arith, h, step))),
              λ e. ground (arith, h, step, last.1 e.2),
            )
        | inr (failed, h) ↦
            (λ e. absurd (ground (arith, h)), λ e. absurd (ground (arith, h, all.1 e.0)))
      ]

  -- The bytes before the addresses.
  abbrev prefix : Message Cid → List ℕ → List ℕ → List ℕ
  prefix m w cid =
      ((w ++ (if length m.orig_peer == 0 then 131 ∷ [] else 132 ∷ [])) ++ cid)
      ++ cbg.write_header 4 (length m.addrs)

  marshal-write_fields :
      (m : Message Cid) (w cid : List ℕ)
      → cbg.write_cid m.cid ≡ some cid
      → marshal cbg always m w ≡ (
          if ltb cbg.max_length (length m.addrs)
          then err Error.slice_too_long
          else write_fields m (prefix m w cid))
  unfolding marshal write_fields
  marshal-write_fields m w cid h = ground (arith, h)

  -- Into a buffer, MarshalCBOR succeeds exactly for a message within the limits of cbor-gen,
  -- whose CID can be written and whose OrigPeer is at most MaxLength long.
  pub marshal-succeeds :
      (m : Message Cid) (w : List ℕ)
      → (is_ok (marshal cbg always m w) ≡ true) ↔ (
          IsWithin m
          × (is_some (cbg.write_cid m.cid) ≡ true)
          × (length m.orig_peer ≤ cbg.max_length))
  marshal-succeeds m w = elim (Option-cases (cbg.write_cid m.cid)) [
    | inl failed ↦ (
      λ e. absurd (unfold marshal in ground (arith, failed)),
      λ e. absurd (ground (arith, failed, e.1)),
    )
    | inr (cid, h) ↦
        let step = marshal-write_fields m w cid h in
        let fields = write_fields-succeeds m (prefix m w cid) in
        (
          λ e.
              let fit : FieldsFit m = fields.0 (ground (arith, step)) in
              (
                record { count = ground (arith, step); each = fit.0; extra = fit.1 },
                ground (arith, h),
                fit.2,
              ),
          λ (within, _, last).
              ground (arith, step, within.count, fields.1 (within.each, within.extra, last)),
        )
  ]
