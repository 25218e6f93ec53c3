-- ===== src/Announce/Receiver/Relay.antt =====
-- announce/receiver.go: an announcement that one host republishes reaches the receiver of another.
use mathlib.Core.List.{append-nil}
use go_legs.Prelude.{
  ◌≡◌, ◌≢◌, ℕ, true, false, Option, none, some, Outcome, returns, arith, refl, List, [], ◌∷◌, ok,
  inl, inr, Option-cases, Bool-cases, Result-cases, if_pos, if_neg, List-cases, suc_eq_zero, ap,
  sym, ◌∙◌, ◌⊎◌, ite, subst,
}
use go_legs.Announce.Gossip.{Message, marshal, unmarshal}
use go_legs.Announce.Gossip.CborGen.{IsCbor}
use go_legs.Announce.Gossip.RoundTrip.{unmarshal-marshal}
use go_legs.Announce.Gossip.Addrs.{set_addrs, get_addrs-set_addrs}
use go_legs.Announce.Receiver.{
  Foreign, Announce, Receiver, Moment, republish, republished_message, handle_announce,
}
use go_legs.Announce.Receiver.Watch.{on_message, ignoring, origin, message_addrs}

-- Reading takes back what was written, and the text of a peer ID is not empty.
pub record IsFaithful {Cid Peer Addr Key : Type 0} (env : Foreign Cid Peer Addr Key) : Type 0 where
  pub cbor : IsCbor env.cbg
  pub addrs : (a : Addr) → env.addr_from_bytes (env.addr_bytes a) ≡ some a
  pub peers : (p : Peer) → env.peer_decode (env.peer_string p) ≡ some p
  pub texts : (p : Peer) → env.peer_string p ≢ []

module _ {Cid Peer Addr Key : Type 0} {env : Foreign Cid Peer Addr Key}
    (laws : IsFaithful env) where
  set_addrs-nil :
      (addrs : List (Option Addr)) → set_addrs env.addr_bytes addrs ≡ some [] → addrs ≡ []
  unfolding set_addrs
  set_addrs-nil [] e = refl
  set_addrs-nil (none ∷ addrs) e = cc
  set_addrs-nil (some a ∷ addrs) e = ground arith

  message_addrs-set_addrs :
      (m : Message Cid) (addrs : List (Option Addr))
      → set_addrs env.addr_bytes addrs ≡ some m.addrs
      → message_addrs env m ≡ some addrs
  unfolding message_addrs
  message_addrs-set_addrs m addrs e = elim (List-cases m.addrs) [
    | inl empty ↦ ground (arith, empty, set_addrs-nil addrs (rw empty at e))
    | inr (v, vs, more) ↦
        rw (more, message_addrs, suc_eq_zero)
          (rw (← more)
            (get_addrs-set_addrs env.addr_bytes env.addr_from_bytes laws.addrs addrs m.addrs e))
  ]

  origin-decode :
      (host_id src p : Peer) → src ≢ host_id → origin env host_id src (env.peer_string p) ≡ some p
  unfolding origin
  origin-decode host_id src p other = elim (List-cases (env.peer_string p)) [
    | inl empty ↦ absurd (laws.texts p empty)
    | inr (c, cs, e) ↦ rw (e, origin, if_neg _ other, ← e) (laws.peers p)
  ]

  origin_self : (host_id p : Peer) → origin env host_id host_id (env.peer_string p) ≡ none
  unfolding origin
  origin_self host_id p = elim (List-cases (env.peer_string p)) [
    | inl empty ↦ absurd (laws.texts p empty)
    | inr (c, cs, e) ↦ rw (e, origin, if_pos (env.same_peer host_id host_id) refl) refl
  ]

  -- What a receiver makes of the data of a republished announcement: from another host it handles
  -- What a receiver makes of a republished announcement from a source: of another host it handles
  -- the announcement, its own it ignores.
  abbrev pub relayed :
      Moment
      → Announce Cid Peer Addr
      → List ℕ
      → Receiver Cid Peer Addr Key
      → Outcome (Receiver Cid Peer Addr Key) (Unit {0})
  relayed now amsg from t = elim (env.peer_from_bytes from) [
    | none ↦ returns tt t
    | some src ↦
        ite (env.same_peer src t.host_id) (returns tt t)
          (ignoring (handle_announce env now amsg false t))
  ]

  -- Every receiver makes that of the data.
  abbrev pub IsRelayed : Announce Cid Peer Addr → List ℕ → Type 0
  IsRelayed amsg msg_data =
      (t : Receiver Cid Peer Addr Key) (now : Moment) (from : List ℕ)
      → on_message env now from msg_data t ≡ relayed now amsg from t

  unmarshal-republished :
      (m : Message Cid) (msg_data : List ℕ)
      → marshal env.cbg (λ _ _. true) m [] ≡ ok msg_data
      → unmarshal env.cbg msg_data ≡ ok (m, [])
  unmarshal-republished m msg_data q =
      let (chunk, whole, reads) = unmarshal-marshal laws.cbor (λ _ _. true) m [] msg_data q in
      ap (unmarshal env.cbg) (whole ∙ sym (append-nil chunk)) ∙ reads []

  marshal-IsRelayed :
      (amsg : Announce Cid Peer Addr) (addrs : List (List ℕ)) (msg_data : List ℕ)
      → set_addrs env.addr_bytes amsg.addrs ≡ some addrs
      → marshal env.cbg (λ _ _. true) (republished_message env amsg addrs) [] ≡ ok msg_data
      → IsRelayed amsg msg_data
  unfolding on_message
  marshal-IsRelayed amsg addrs msg_data p q t now from =
      let m = republished_message env amsg addrs in
      let decoded = unmarshal-republished m msg_data q in
      let located = message_addrs-set_addrs m amsg.addrs p in
      elim (Option-cases (env.peer_from_bytes from)) [
        | inl unknown ↦ ground (arith, unknown)
        | inr (src, known) ↦ elim (env.same_peer src t.host_id) [
          | yes self ↦
              let mine : origin env t.host_id src (env.peer_string amsg.peer) ≡ none =
                subst (λ (p : Peer). origin env t.host_id p (env.peer_string amsg.peer) ≡ none)
                  (sym self) (origin_self t.host_id amsg.peer) in
              ground (arith, known, decoded, located, mine, self)
          | no other ↦
              ground (arith, known, decoded, located, origin-decode t.host_id src amsg.peer other)
        ]
      ]

  -- If foreign encodings can be read back, republish of an announcement publishes nothing, or one
  -- message. A receiver that gets this message from another host handles the same announcement,
  -- with the same CID, publisher and addresses, as not direct; one that gets it from its own
  -- host, or from a source that is no peer, ignores it.
  pub republish-IsRelayed :
      (r s : Receiver Cid Peer Addr Key) (amsg : Announce Cid Peer Addr) (now : Moment)
      → republish env now amsg r ≡ returns tt s
      → (s ≡ r)
        ⊎ ((msg_data : List ℕ) × (s ≡ record r { published = msg_data ∷ r.published })
            × IsRelayed amsg msg_data)
  unfolding republish
  republish-IsRelayed r s amsg now e = elim (Option-cases (set_addrs env.addr_bytes amsg.addrs)) [
    | inl nil ↦ absurd (ground (arith, nil))
    | inr (addrs, p) ↦
        elim (Result-cases
          (marshal env.cbg (λ _ _. true) (republished_message env amsg addrs) [])) [
            | inl (msg_data, q) ↦ elim (Bool-cases now.publishes) [
              | inl published ↦
                  inr (msg_data, ground (arith, p, q), marshal-IsRelayed amsg addrs msg_data p q)
              | inr lost ↦ inl (ground (arith, p, q))
            ]
            | inr (failed, q) ↦ inl (ground (arith, p, q))
          ]
  ]
