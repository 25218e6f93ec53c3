-- ===== src/Announce/Receiver/Checks.antt =====
-- announce/receiver.go: what `announceCheck` answers, on every branch.
use go_legs.Prelude.{
  ◌≡◌, ◌∙◌, if◌then◌else◌, false, not, Option, none, some, List, ◌∷◌, take, remove, contains,
  returns, arith, Bool-cases, inl, inr,
}
use go_legs.Announce.Lru.{Lru}
use go_legs.Announce.Lru.Nodes.{values}
use go_legs.Announce.Lru.Refines.{IsValid, update-refines}
use go_legs.Announce.Receiver.{
  Foreign, Announce, Receiver, Error, closed, source_not_allowed, already_seen, announce_check,
  is_allowed, announce_cache_size,
}

module _ {Cid Peer Addr Key : Type 0} (env : Foreign Cid Peer Addr Key) where
  -- The announce cache is well formed and has its size.
  pub record HasCache (r : Receiver Cid Peer Addr Key) : Type 0 where
    pub valid : IsValid env.same_key r.announce_cache
    pub size : r.announce_cache.max ≡ announce_cache_size

  -- The CIDs that the receiver has seen, the latest first.
  abbrev pub seen : Receiver Cid Peer Addr Key → List Key
  seen r = values r.announce_cache.nodes

  -- The answer to an announcement.
  abbrev pub verdict : Receiver Cid Peer Addr Key → Announce Cid Peer Addr → Option Error
  verdict r amsg =
      if r.is_closed
      then some closed
      else if not (is_allowed env r.allow_peer amsg.peer)
      then some source_not_allowed
      else if contains env.same_key (env.cid_string amsg.cid) (seen r)
      then some already_seen
      else none

  -- The CIDs seen afterwards.
  abbrev pub seen_after : Receiver Cid Peer Addr Key → Announce Cid Peer Addr → List Key
  seen_after r amsg =
      if r.is_closed
      then seen r
      else if not (is_allowed env r.allow_peer amsg.peer)
      then seen r
      else (let key = env.cid_string amsg.cid in
          take announce_cache_size (key ∷ remove env.same_key key (seen r)))

  -- The result of `announceCheck`, with only the cache changed.
  abbrev pub Checked : Receiver Cid Peer Addr Key → Announce Cid Peer Addr → Lru Key → Type 0
  Checked r amsg cache =
      (announce_check env amsg r ≡ returns (verdict r amsg) (record r { announce_cache = cache }))
      × IsValid env.same_key cache
      × (cache.max ≡ announce_cache_size)
      × (values cache.nodes ≡ seen_after r amsg)

  -- On a receiver with a well formed cache and a free mutex, announceCheck returns. It refuses if
  -- the receiver is closed, if the peer is not allowed, and if the CID is among the 64 seen last;
  -- the CID of an announcement that gets so far becomes the one seen last, and nothing else
  -- changes.
  pub announce_check-Checked :
      (r : Receiver Cid Peer Addr Key) (amsg : Announce Cid Peer Addr)
      → HasCache r
      → r.locked ≡ false
      → (cache : Lru Key) × Checked r amsg cache
  unfolding announce_check
  announce_check-Checked r amsg v free = elim (Bool-cases r.is_closed) [
    | inl shut ↦ (r.announce_cache, (ground arith, v.valid, v.size, ground arith))
    | inr live ↦ elim (Bool-cases (is_allowed env r.allow_peer amsg.peer)) [
      | inl allowed ↦
          let (cache, step, valid, kept, same) =
            update-refines env.same_key r.announce_cache (env.cid_string amsg.cid) v.valid
              (omega (arith, v.size)) in
          (cache, (ground (arith, step), valid, same ∙ v.size, ground (arith, kept, v.size)))
      | inr refused ↦
          (r.announce_cache, (ground (arith, refused), v.valid, v.size, ground (arith, refused)))
    ]
  ]
