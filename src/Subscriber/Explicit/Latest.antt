-- ===== src/Subscriber/Explicit/Latest.antt =====
-- subscriber.go, `Sync`: when an explicit sync moves the latest sync of its publisher and tells the
-- readers.
use go_legs.Prelude.{
  ℕ, ◌≤◌, ◌≡◌, length, ◌++◌, Outcome, returns, blocks, panics, Bool, true, false, ◌&&◌, ◌||◌, not,
  if◌then◌else◌, Option, some, List, [], ◌∷◌, Result, ok, err, ite, is_none, arith,
}
use go_legs.Subscriber.Async.{SyncFinished, is_defined}
use go_legs.Subscriber.Explicit.{State, SyncError, Parts, Request, cfg_of, make_syncer}

module _ {Cid Peer Addr Node Limiter Hook : Type 0}
    (parts : Parts Cid Peer Addr Node Limiter Hook) where
  -- Whether a request asks to move the latest sync.
  abbrev pub moves : Request parts → Bool
  moves q =
      (cfg_of parts q).always_update_latest
      || (not (is_defined parts.same_cid parts.undef q.next_cid) && is_none q.sel)

  abbrev latest_after :
      Bool → Request parts → Result SyncError Cid → State Cid Peer Addr → Peer → Option Cid
  latest_after u q (err e) s p = s.latest_syncs p
  latest_after u q (ok c) s p =
      if u && is_defined parts.same_cid parts.undef c
      then ite (parts.same_peer p q.peer) (some c) (s.latest_syncs p)
      else s.latest_syncs p

  abbrev events_after :
      Bool
      → Request parts
      → Result SyncError Cid
      → List Cid
      → State Cid Peer Addr
      → List (SyncFinished Cid Peer)
  events_after u q (err e) l s = s.in_events
  events_after u q (ok c) l s =
      if u && is_defined parts.same_cid parts.undef c
      then s.in_events ++ record { cid = c; peer = q.peer; synced_cids = l } ∷ []
      else s.in_events

  -- What a sync does to the latest syncs and the events. It waits only to send its event.
  abbrev pub Moves :
      Bool
      → Request parts
      → State Cid Peer Addr
      → Outcome (State Cid Peer Addr) (Result SyncError Cid)
      → Type 0
  Moves u q s (returns res t) =
      (l : List Cid) × (t.in_events ≡ events_after u q res l s)
      × ((p : Peer) → t.latest_syncs p ≡ latest_after u q res s p)
  Moves u q s blocks = (u ≡ true) × (1 ≤ length s.in_events)
  Moves u q s panics = true ≡ false

  pub make_syncer-keeps :
      (peer : Peer) (addrs : List (Option Addr)) (possible : List Addr) (ttl : ℕ)
      (limiter : Option Limiter) (s : State Cid Peer Addr)
      → ((make_syncer parts peer addrs possible ttl limiter s).1.in_events ≡ s.in_events)
        × ((make_syncer parts peer addrs possible ttl limiter s).1.latest_syncs ≡ s.latest_syncs)
  unfolding make_syncer
  make_syncer-keeps peer addrs possible ttl limiter s = (ground arith, ground arith)
