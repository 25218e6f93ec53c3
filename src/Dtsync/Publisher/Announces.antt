-- ===== src/Dtsync/Publisher/Announces.antt =====
-- dtsync/publisher.go: what others learn of a root that was published.
use mathlib.Core.List.{append-nil}
use go_legs.Prelude.{
  ℕ, ◌≡◌, refl, sym, subst, ◌∙◌, true, Option, none, some, List, [], ◌∷◌, ◌++◌, ok, returns, arith,
  Option-cases, Result-cases, inl, inr,
}
use go_legs.Announce.Gossip.CborGen.{Cbg, IsCbor}
use go_legs.Announce.Gossip.{Message, marshal, unmarshal}
use go_legs.Announce.Gossip.Addrs.{set_addrs, get_addrs, get_addrs-set_addrs}
use go_legs.Announce.Gossip.Limits.{always}
use go_legs.Announce.Gossip.RoundTrip.{unmarshal-marshal}
use go_legs.Head.{Dialled, update_head, serve_head, query_root_cid}
use go_legs.Head.Query.{IsServed, IsReadable, query_root_cid-update_head}
use go_legs.Dtsync.SetUp.{Text}
use go_legs.Dtsync.Publisher.{DtPublisher, set_root, update_root_with_addrs}

module _ {Cid Addr : Type 0} (same_cid : Discrete Cid) (undef : Cid) (cbg : Cbg Cid)
    (bytes : Addr → List ℕ) (publish : List ℕ → Option Text) where
  -- The message of an update.
  abbrev update_message : Cid → List (List ℕ) → DtPublisher Cid → Message Cid
  update_message c vs p = record { cid = c; addrs = vs; extra_data = p.extra_data; orig_peer = [] }

  -- What an update that returns no error has done.
  update-published :
      (c : Cid) (addrs : List (Option Addr)) (p q : DtPublisher Cid)
      → update_root_with_addrs same_cid undef cbg bytes publish c addrs p ≡ returns none q
      → (vs : List (List ℕ)) × (buf : List ℕ) × (set_addrs bytes addrs ≡ some vs)
        × (marshal cbg always (update_message c vs p) [] ≡ ok buf)
        × (q.head_publisher ≡ update_head c p.head_publisher)
        × (q.payloads ≡ p.payloads ++ buf ∷ [])
        × (publish buf ≡ none)
  unfolding update_root_with_addrs set_root
  update-published c addrs p q ran = elim (Option-cases (set_addrs bytes addrs)) [
    | inl nil ↦ absurd (ground (arith, nil))
    | inr (vs, e) ↦ elim (Result-cases (marshal cbg always (update_message c vs p) [])) [
      | inr (bad, f) ↦ absurd (ground (arith, e, f))
      | inl (buf, f) ↦
          (vs, buf, e, f, ground (arith, e, f), ground (arith, e, f), ground (arith, e, f))
    ]
  ]

  -- What a subscriber reads from the bytes of an announcement.
  abbrev pub Announces :
      (List ℕ → Option Addr) → Cid → List (Option Addr) → List ℕ → List ℕ → Type 0
  Announces from_bytes c addrs extra buf =
      (m : Message Cid) × (unmarshal cbg buf ≡ ok (m, []))
      × (m.cid ≡ c)
      × (get_addrs from_bytes m.addrs ≡ some addrs)
      × (m.extra_data ≡ extra)
      × (m.orig_peer ≡ [])

  -- Let the CBOR coder be as IsCbor describes, the bytes of an address and the text of the CID be
  -- readable, and the provider be reached on one of the two protocol IDs of the topic. If
  -- UpdateRootWithAddrs returns no error, a query for the head finds the CID, and one payload more was
  -- published, from which a subscriber reads the CID, the addresses and the extra data of the publisher,
  -- with no original peer.
  pub update_root_with_addrs-Announces :
      IsCbor cbg
      → (from_bytes : List ℕ → Option Addr) → ((a : Addr) → from_bytes (bytes a) ≡ some a)
      → (cid_text : Cid → List ℕ) (decode : List ℕ → Option Cid) (dial : List ℕ → Dialled)
        (topic : List ℕ) (c : Cid) (addrs : List (Option Addr)) (p q : DtPublisher Cid)
      → IsServed dial topic
      → IsReadable same_cid undef cid_text decode c
      → update_root_with_addrs same_cid undef cbg bytes publish c addrs p ≡ returns none q
      → (query_root_cid undef decode true dial
            (λ pid path. some (serve_head same_cid undef cid_text path q.head_publisher))
            (λ resp. some resp.body)
            topic
          ≡ ok c)
        × (buf : List ℕ) × (q.payloads ≡ p.payloads ++ buf ∷ [])
        × (publish buf ≡ none)
        × Announces from_bytes c addrs p.extra_data buf
  update_root_with_addrs-Announces laws from_bytes law cid_text decode dial topic c addrs p q served
        readable ran =
      let (vs, buf, e, f, root, more, sent) = update-published c addrs p q ran in
      let (chunk, same, back) = unmarshal-marshal laws always (update_message c vs p) [] buf f in
      let read : unmarshal cbg buf ≡ ok (update_message c vs p, []) =
        subst (λ b. unmarshal cbg b ≡ ok (update_message c vs p, [])) (append-nil chunk ∙ sym same)
          (back []) in
      let found =
        query_root_cid-update_head same_cid undef cid_text decode dial topic c p.head_publisher
          served (λ ne. readable) in
      (
        rw root found,
        buf,
        more,
        sent,
        (
          update_message c vs p,
          read,
          refl,
          get_addrs-set_addrs bytes from_bytes law addrs vs e,
          refl,
          refl,
        ),
      )
