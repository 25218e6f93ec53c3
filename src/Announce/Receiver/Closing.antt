-- ===== src/Announce/Receiver/Closing.antt =====
-- announce/receiver.go: what calls do once the receiver is closed, and once it is closed twice.
use go_legs.Prelude.{
  ◌≡◌, Bool, true, false, not, ◌&&◌, if◌then◌else◌, Option, none, some, returns, blocks, arith,
  refl, List,
}
use go_legs.Announce.Receiver.{
  Foreign, Announce, Receiver, Moment, Error, closed, topic_close_failed, announce_check,
  after_check, handle_announce, direct, next, close, set_allow_peer, uncache_cid, pick_done,
}

module _ {Cid Peer Addr Key : Type 0} (env : Foreign Cid Peer Addr Key) where
  -- The state behind `Close`, and its error.
  abbrev pub closed_state : Receiver Cid Peer Addr Key → Receiver Cid Peer Addr Key
  closed_state r = record r {
    is_closed = true;
    subscribed = false;
    done = true;
    watch_done = true;
    in_topic = not r.owns_topic && r.in_topic;
  }

  abbrev close_error : Bool → Receiver Cid Peer Addr Key → Option Error
  close_error closes r = if r.owns_topic && not closes then some topic_close_failed else none

  -- Close of an open receiver whose mutex is free returns; then every announcement is answered by
  -- ErrClosed and changes nothing, and so is a Next that takes the branch of the closed channel.
  pub close-closed :
      (r : Receiver Cid Peer Addr Key) (closes : Bool)
      → r.locked ≡ false
      → r.is_closed ≡ false
      → (e : Option Error) × (s : Receiver Cid Peer Addr Key) × (close env closes r ≡ returns e s)
        × ((now : Moment) (amsg : Announce Cid Peer Addr) (direct : Bool)
            → handle_announce env now amsg direct s ≡ returns (some closed) s)
        × ((now : Moment)
            → next env (record now { pick = pick_done }) s ≡ returns (none, some closed) s)
  unfolding close handle_announce announce_check after_check next
  close-closed r closes free live = (
    close_error closes r,
    closed_state r,
    ground arith,
    λ now amsg direct. ground arith,
    λ now. ground arith,
  )

  -- Close of a closed receiver whose mutex is free returns nil and keeps the mutex: from then on
  -- Close, Direct, SetAllowPeer and UncacheCid never return.
  pub close-blocks :
      (r : Receiver Cid Peer Addr Key) (closes : Bool)
      → r.locked ≡ false
      → r.is_closed ≡ true
      → (s : Receiver Cid Peer Addr Key) × (close env closes r ≡ returns none s)
        × ((again : Bool) → close env again s ≡ blocks)
        × ((now : Moment) (c : Cid) (p : Peer) (addrs : List (Option Addr))
            → direct env now c p addrs s ≡ blocks)
        × ((allow : Option (Peer → Bool)) → set_allow_peer env allow s ≡ blocks)
        × ((c : Cid) → uncache_cid env c s ≡ blocks)
  unfolding close direct handle_announce announce_check set_allow_peer uncache_cid
  close-blocks r closes free shut = (
    record r { locked = true },
    ground arith,
    λ again. ground arith,
    λ now c p addrs. refl,
    λ allow. refl,
    λ c. refl,
  )
