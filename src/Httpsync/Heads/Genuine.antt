-- ===== src/Httpsync/Heads/Genuine.antt =====
-- httpsync/message.go: which heads are accepted.
use go_legs.Prelude.{
  ℕ, ◌≡◌, true, Option, some, List, ◌∷◌, ok, err, ite, arith, Option-cases, inl, inr,
}
use go_legs.Head.{Response, head_path}
use go_legs.Head.Paths.{path_base, is_same}
use go_legs.Httpsync.Heads.{
  SignedHead, Crypto, unexpected_peer, new_encoded_signed_head, open_signed_head_envelop,
  open_with_included_key, get_signed_head, HttpPublisher, set_http_root, Loaded, serve_http,
}

module _ {Cid Peer Priv Pub : Type 0} (crypto : Crypto Cid Peer Priv Pub) where
  -- A signature verifies under its key, and keys and envelopes are read back as they were written.
  pub record IsCrypto : Type 0 where
    pub verify-sign :
        (k : Priv) (m sig : List ℕ)
        → crypto.sign k m ≡ some sig
        → crypto.verify (crypto.get_public k) m sig ≡ some true
    pub unmarshal-marshal_key :
        (k : Pub) (bytes : List ℕ)
        → crypto.marshal_public_key k ≡ some bytes
        → crypto.unmarshal_public_key bytes ≡ some k
    pub decode-encode :
        (e : SignedHead Cid) (bytes : List ℕ)
        → crypto.encode e ≡ some bytes
        → crypto.decode bytes ≡ some e

  -- Somebody with the key of the peer has signed the CID in the message.
  abbrev pub IsGenuine : Peer → Cid → List ℕ → Type 0
  IsGenuine peer c msg =
      (e : SignedHead Cid) × (key : Pub) × (crypto.decode msg ≡ some e)
      × (e.head ≡ c)
      × (crypto.unmarshal_public_key e.pubkey ≡ some key)
      × (crypto.verify key (crypto.cid_bytes c) e.sig ≡ some true)
      × (crypto.id_from_public_key key ≡ some peer)

  -- Whatever bytes a syncer for a peer is given, if GetHead returns a CID, they hold that CID and a
  -- signature of it that verifies under a key of that peer.
  pub get_signed_head-IsGenuine :
      (same_peer : Discrete Peer) (peer : Peer) (msg : List ℕ) (c : Cid)
      → get_signed_head crypto same_peer peer (some msg) ≡ ok c
      → IsGenuine peer c msg
  unfolding get_signed_head open_with_included_key open_signed_head_envelop
  get_signed_head-IsGenuine same_peer peer msg c h = elim (Option-cases (crypto.decode msg)) [
    | inl bad ↦ absurd (ground (arith, bad))
    | inr (e, decoded) ↦ elim (Option-cases (crypto.unmarshal_public_key e.pubkey)) [
      | inl bad ↦ absurd (ground (arith, decoded, bad))
      | inr (key, read) ↦ (
        e,
        key,
        decoded,
        ground (arith, decoded, read),
        read,
        ground (arith, decoded, read),
        ground (arith, decoded, read),
      )
    ]
  ]

  -- What a publisher signs opens with the key in it.
  open-new_encoded :
      IsCrypto
      → (c : Cid) (k : Priv) (msg : List ℕ) → new_encoded_signed_head crypto c k ≡ some msg
      → open_with_included_key crypto msg ≡ ok (crypto.get_public k, c)
  unfolding new_encoded_signed_head open_with_included_key open_signed_head_envelop
  open-new_encoded laws c k msg made = elim (Option-cases (crypto.sign k (crypto.cid_bytes c))) [
    | inl bad ↦ absurd (ground (arith, bad))
    | inr (sig, signed) ↦ elim (Option-cases (crypto.marshal_public_key (crypto.get_public k))) [
      | inl bad ↦ absurd (ground (arith, signed, bad))
      | inr (key, marshalled) ↦
          let e : SignedHead Cid = record { head = c; sig = sig; pubkey = key } in
          let encoded : crypto.encode e ≡ some msg = ground (arith, signed, marshalled) in
          let decoded = laws.decode-encode e msg encoded in
          let read = laws.unmarshal-marshal_key (crypto.get_public k) key marshalled in
          let verified = laws.verify-sign k (crypto.cid_bytes c) sig signed in
          ground (arith, decoded, read, verified)
    ]
  ]

  served-new_encoded :
      (parse : List ℕ → Option Cid) (load : Cid → Loaded) (p : HttpPublisher Cid Priv)
      → (serve_http crypto parse load (47 ∷ head_path) p).status_code ≡ 200
      → new_encoded_signed_head crypto p.root p.priv_key
        ≡ some ((serve_http crypto parse load (47 ∷ head_path) p).body)
  unfolding serve_http path_base is_same
  served-new_encoded parse load p good =
      elim (Option-cases (new_encoded_signed_head crypto p.root p.priv_key)) [
        | inl bad ↦ absurd (ground (arith, bad))
        | inr (msg, made) ↦ ground (arith, made)
      ]

  -- Let signatures verify, and keys and envelopes be read back. If a publisher serves its head with
  -- status 200, a syncer that is given the response gets the root that was set, if it is for the peer
  -- with the publisher's key, and an error if it is for any other peer.
  pub get_signed_head-serve_http :
      IsCrypto
      → (same_peer : Discrete Peer) (peer asked : Peer) (parse : List ℕ → Option Cid)
        (load : Cid → Loaded) (c : Cid) (p : HttpPublisher Cid Priv)
      → crypto.id_from_public_key (crypto.get_public p.priv_key) ≡ some peer
      → (resp : Response) → resp ≡ serve_http crypto parse load (47 ∷ head_path) (set_http_root c p)
      → resp.status_code ≡ 200
      → get_signed_head crypto same_peer asked (some resp.body)
        ≡ ite (same_peer peer asked) (ok c) (err unexpected_peer)
  unfolding get_signed_head set_http_root
  get_signed_head-serve_http laws same_peer peer asked parse load c p id resp served good =
      let made : new_encoded_signed_head crypto c p.priv_key ≡ some resp.body =
        rw served (served-new_encoded parse load (set_http_root c p) (rw (← served) good)) in
      let opened = open-new_encoded laws c p.priv_key resp.body made in ground (arith, opened, id)
