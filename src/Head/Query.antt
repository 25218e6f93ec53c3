-- ===== src/Head/Query.antt =====
-- p2p/protocol/head/head.go: a query finds what was published.
use go_legs.Prelude.{ℕ, ◌≡◌, ◌≢◌, true, Option, some, List, ◌∷◌, ◌⊎◌, inl, inr, ok, arith}
use go_legs.Head.{
  HeadPublisher, Dialled, dialled, not_supported, derive_protocol_id, old_protocol_id, head_path,
  update_head, serve_head, dial_context, read_head, query_root_cid,
}
use go_legs.Head.Paths.{path_base, is_same}

-- A provider serves one of the two protocol IDs of a topic.
abbrev pub IsServed : (List ℕ → Dialled) → List ℕ → Type 0
IsServed dial topic =
    (dial (derive_protocol_id topic) ≡ dialled)
    ⊎ ((dial (derive_protocol_id topic) ≡ not_supported) × (dial (old_protocol_id topic) ≡ dialled))

dial_context-ok :
    (dial : List ℕ → Dialled) (topic : List ℕ)
    → IsServed dial topic
    → (pid : List ℕ) × (dial_context true dial topic ≡ ok pid)
unfolding dial_context
dial_context-ok dial topic (inl new) = (derive_protocol_id topic, ground (arith, new))
dial_context-ok dial topic (inr (gone, old)) = (old_protocol_id topic, ground (arith, gone, old))

module _ {Cid : Type 0} (same_cid : Discrete Cid) (undef : Cid) (cid_text : Cid → List ℕ)
    (decode : List ℕ → Option Cid) where
  -- The text of a CID is not empty and is decoded to it.
  abbrev pub IsReadable : Cid → Type 0
  IsReadable c = (b : ℕ) × (bs : List ℕ) × (cid_text c ≡ b ∷ bs) × (decode (b ∷ bs) ≡ some c)

  read_head-serve_head :
      (p : HeadPublisher Cid)
      → (p.published_root ≢ undef → IsReadable p.published_root)
      → read_head undef decode (serve_head same_cid undef cid_text (47 ∷ head_path) p).body
        ≡ ok p.published_root
  unfolding read_head serve_head path_base is_same
  read_head-serve_head p readable = elim (same_cid p.published_root undef) [
    | yes e ↦ ground (arith, e)
    | no ne ↦ let (b, bs, text, decoded) = readable ne in ground (arith, ne, text, decoded)
  ]

  -- If a provider can be reached on one of the two protocol IDs of the topic and its response is read
  -- as it is served, a query after UpdateRoot finds the CID that was set: that of a CID that is defined,
  -- whose text can be read back, and cid.Undef when that was set.
  pub query_root_cid-update_head :
      (dial : List ℕ → Dialled) (topic : List ℕ) (c : Cid) (p : HeadPublisher Cid)
      → IsServed dial topic
      → (c ≢ undef → IsReadable c)
      → query_root_cid undef decode true dial
          (λ pid path. some (serve_head same_cid undef cid_text path (update_head c p)))
          (λ resp. some resp.body)
          topic
        ≡ ok c
  unfolding query_root_cid update_head
  query_root_cid-update_head dial topic c p served readable =
      let (pid, reached) = dial_context-ok dial topic served in
      let found = read_head-serve_head (update_head c p) readable in
      rw (query_root_cid, reached) found
