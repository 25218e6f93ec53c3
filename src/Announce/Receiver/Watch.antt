-- ===== src/Announce/Receiver/Watch.antt =====
-- announce/receiver.go, `watch`: one round of its loop.
use go_legs.Prelude.{
  ℕ, ◌==◌, if◌then◌else◌, Bool, true, false, not, Option, none, some, List, [], ◌∷◌, length, ok,
  err, ite, Outcome, returns, blocks, and_then,
}
use go_legs.Announce.Gossip.{Message, unmarshal}
use go_legs.Announce.Gossip.Addrs.{get_addrs}
use go_legs.Announce.Receiver.{Foreign, Moment, Call, handle_announce}

-- The error of `handleAnnounce` is only logged.
abbrev pub ignoring : {S E : Type 0} → Outcome S (Option E) → Outcome S (Unit {0})
ignoring m = and_then m (λ _ s. returns tt s)

module _ {Cid Peer Addr Key : Type 0} (env : Foreign Cid Peer Addr Key) where
  -- `GetAddrs`, if the message has addresses.
  unfoldable pub message_addrs : Message Cid → Option (List (Option Addr))
  unfolding get_addrs
  message_addrs m = if length m.addrs == 0 then some [] else get_addrs env.addr_from_bytes m.addrs

  -- The publisher of a message: its source, or for a republished message the peer that it names.
  -- `none`: the message is ignored.
  unfoldable pub origin : Peer → Peer → List ℕ → Option Peer
  origin host_id src_peer [] = some src_peer
  origin host_id src_peer (c ∷ cs) =
      ite (env.same_peer src_peer host_id) none (env.peer_decode (c ∷ cs))

  -- A message of the subscription: its source and its data.
  unfoldable pub on_message : Moment → List ℕ → List ℕ → Call env (Unit {0})
  on_message now from msg_data r = elim (env.peer_from_bytes from) [
    | none ↦ returns tt r
    | some src_peer ↦ elim (unmarshal env.cbg msg_data) [
      | err _ ↦ returns tt r
      | ok (m, _) ↦ elim (message_addrs m) [
        | none ↦ returns tt r
        | some addrs ↦ elim (origin r.host_id src_peer m.orig_peer) [
          | none ↦ returns tt r
          | some peer ↦
              ignoring (
                handle_announce env now (record { cid = m.cid; peer = peer; addrs = addrs }) false
                  r)
        ]
      ]
    ]
  ]

  -- The subscription failed: `cancelled` if it was shut down; `resubscribes` tells whether
  -- `Subscribe` succeeds.
  unfoldable pub on_read_error : Bool → Bool → Call env (Unit {0})
  on_read_error cancelled resubscribes r =
      if cancelled
      then returns tt (record r { watch_done = true })
      else if r.locked
      then blocks
      else returns tt (record r { subscribed = resubscribes; watch_done = not resubscribes })
