-- ===== src/Announce/Receiver.antt =====
-- announce/receiver.go: announcements from pubsub and from direct calls, checked and passed on.
-- A call is a function on the state of the receiver; the choice of a `select`, the state of the
-- caller's context and the success of foreign calls are arguments.
pub mod Watch
pub mod Checks
pub mod Dedup
pub mod Closing
pub mod Relay
pub mod Options
pub mod Sound
pub mod Invariant
mod Tests
use go_legs.Prelude.{
  ℕ, ◌==◌, if◌then◌else◌, Bool, true, false, not, ◌&&◌, ltb, Option, none, some, List, [], ◌∷◌,
  ◌++◌, length, ok, err, Outcome, returns, blocks, panics, and_then,
}
use go_legs.Announce.Lru
use go_legs.Announce.Lru.{Lru}
use go_legs.Announce.Gossip.{Message, marshal, unmarshal}
use go_legs.Announce.Gossip.CborGen.{Cbg}
use go_legs.Announce.Gossip.Addrs.{set_addrs, get_addrs}
use go_legs.Mautil.{filter_private_ips}

-- What the receiver uses of go-cid, go-libp2p, go-multiaddr and cbor-gen.
pub record Foreign (Cid Peer Addr Key : Type 0) : Type 0 where
  pub cid_string : Cid → Key
  pub same_key : Discrete Key
  pub same_peer : Discrete Peer
  pub to_ip : Addr → Option (List ℕ)
  pub addr_bytes : Addr → List ℕ
  pub addr_from_bytes : List ℕ → Option Addr
  pub peer_string : Peer → List ℕ
  pub peer_decode : List ℕ → Option Peer
  pub peer_from_bytes : List ℕ → Option Peer
  pub cbg : Cbg Cid

pub record Announce (Cid Peer Addr : Type 0) : Type 0 where
  pub cid : Cid
  pub peer : Peer
  pub addrs : List (Option Addr)

pub data Error : Type 0 where
  closed source_not_allowed already_seen context_done : Error
  topic_close_failed : Error

abbrev pub announce_cache_size : ℕ
announce_cache_size = 64

pub record Receiver (Cid Peer Addr Key : Type 0) : Type 0 where
  pub allow_peer : Option (Peer → Bool)
  pub filter_ips : Bool
  pub resend : Bool
  pub host_id : Peer
  pub announce_cache : Lru Key
  -- `announceMutex` is held by a call that has returned.
  pub locked : Bool
  pub is_closed : Bool
  -- `topicSub` is there and not cancelled.
  pub subscribed : Bool
  -- The channels `done` and `watchDone` are closed.
  pub done : Bool
  pub watch_done : Bool
  -- `cancelPubsub` is set, and the topic is open.
  pub owns_topic : Bool
  pub in_topic : Bool
  -- The buffered channel `outChan`.
  pub out_chan : List (Announce Cid Peer Addr)
  -- The messages published in the topic, the latest first.
  pub published : List (List ℕ)

-- The ready branch that a `select` takes.
pub data Pick : Type 0 where
  pick_context pick_channel pick_done : Pick

-- The circumstances of a call: the branch of its `select`, whether the context is done, and whether
-- `Publish` succeeds.
pub record Moment : Type 0 where
  pub pick : Pick
  pub context_done : Bool
  pub publishes : Bool

module _ {Cid Peer Addr Key : Type 0} (env : Foreign Cid Peer Addr Key) where
  abbrev pub republished_message : Announce Cid Peer Addr → List (List ℕ) → Message Cid
  republished_message amsg addrs = record {
    cid = amsg.cid;
    addrs = addrs;
    extra_data = [];
    orig_peer = env.peer_string amsg.peer;
  }

  abbrev pub Call : Type 0 → Type 0
  Call A = Receiver Cid Peer Addr Key → Outcome (Receiver Cid Peer Addr Key) A

  abbrev pub is_allowed : Option (Peer → Bool) → Peer → Bool
  is_allowed none p = true
  is_allowed (some allow) p = allow p

  -- `announceCheck`; the error, if any.
  unfoldable pub announce_check : Announce Cid Peer Addr → Call (Option Error)
  unfolding Lru.update
  announce_check amsg r =
      if r.locked
      then blocks
      else if r.is_closed
      then returns (some closed) r
      else if not (is_allowed r.allow_peer amsg.peer)
      then returns (some source_not_allowed) r
      else elim (Lru.update env.same_key r.announce_cache (env.cid_string amsg.cid)) [
        | none ↦ panics
        | some (cache, hit) ↦
            returns (if hit then some already_seen else none) (record r { announce_cache = cache })
      ]

  -- `republish`. The error is only logged, so the call returns nothing.
  unfoldable pub republish : Moment → Announce Cid Peer Addr → Call (Unit {0})
  republish now amsg r = elim (set_addrs env.addr_bytes amsg.addrs) [
    | none ↦ panics
    | some addrs ↦ elim (marshal env.cbg (λ _ _. true) (republished_message amsg addrs) []) [
      | err _ ↦ returns tt r
      | ok data_bytes ↦
          returns tt
            (if now.publishes then record r { published = data_bytes ∷ r.published } else r)
    ]
  ]

  -- The last `select` of `handleAnnounce`, on a channel of capacity 1.
  unfoldable pub send_out : Moment → Announce Cid Peer Addr → Call (Option Error)
  send_out now amsg r = elim now.pick [
    | pick_context ↦ if now.context_done then returns (some context_done) r else blocks
    | pick_channel ↦
        if ltb (length r.out_chan) 1
        then returns none (record r { out_chan = r.out_chan ++ amsg ∷ [] })
        else blocks
    | pick_done ↦ blocks
  ]

  abbrev pub filtered : Bool → Announce Cid Peer Addr → Announce Cid Peer Addr
  filtered filter_ips amsg =
      if filter_ips then record amsg { addrs = filter_private_ips env.to_ip amsg.addrs } else amsg

  -- The part of `handleAnnounce` behind the check.
  unfoldable pub pass_on : Moment → Announce Cid Peer Addr → Bool → Call (Option Error)
  unfolding republish send_out
  pass_on now amsg direct r =
      and_then (if direct && r.resend then republish now amsg r else returns tt r)
        (λ _ s. send_out now amsg s)

  -- What `handleAnnounce` does with the error of the check.
  unfoldable pub after_check :
      Moment → Announce Cid Peer Addr → Bool → Option Error → Call (Option Error)
  unfolding pass_on
  after_check now amsg direct none r = pass_on now (filtered r.filter_ips amsg) direct r
  after_check now amsg direct (some closed) r = returns (some closed) r
  after_check now amsg direct (some _) r = returns none r

  unfoldable pub handle_announce : Moment → Announce Cid Peer Addr → Bool → Call (Option Error)
  unfolding announce_check after_check
  handle_announce now amsg direct r =
      and_then (announce_check amsg r) (λ e s. after_check now amsg direct e s)

  -- `Direct`
  unfoldable pub direct : Moment → Cid → Peer → List (Option Addr) → Call (Option Error)
  unfolding handle_announce
  direct now next_cid peer addrs r =
      handle_announce now (record { cid = next_cid; peer = peer; addrs = addrs }) true r

  -- `Next`: the message, or the error.
  unfoldable pub next : Moment → Call (Option (Announce Cid Peer Addr) × Option Error)
  next now r = elim now.pick [
    | pick_context ↦ if now.context_done then returns (none, some context_done) r else blocks
    | pick_channel ↦ elim r.out_chan [
      | [] ↦ blocks
      | amsg ∷ rest ↦ returns (some amsg, none) (record r { out_chan = rest })
    ]
    | pick_done ↦ if r.done then returns (none, some closed) r else blocks
  ]

  -- `Close`; `closes` tells whether `topic.Close` succeeds. The first return leaves the mutex locked.
  unfoldable pub close : Bool → Call (Option Error)
  close closes r =
      if r.locked
      then blocks
      else if r.is_closed
      then returns none (record r { locked = true })
      else returns (if r.owns_topic && not closes then some topic_close_failed else none)
          (record r {
            is_closed = true;
            subscribed = false;
            done = true;
            watch_done = true;
            in_topic = not r.owns_topic && r.in_topic;
          })

  unfoldable pub set_allow_peer : Option (Peer → Bool) → Call (Unit {0})
  set_allow_peer allow r = if r.locked then blocks else returns tt (record r { allow_peer = allow })

  unfoldable pub uncache_cid : Cid → Call (Unit {0})
  uncache_cid c r =
      if r.locked
      then blocks
      else returns tt (record r {
        announce_cache = (Lru.remove_key env.same_key r.announce_cache (env.cid_string c)).0;
      })
