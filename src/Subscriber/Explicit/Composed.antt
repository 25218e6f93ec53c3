-- ===== src/Subscriber/Explicit/Composed.antt =====
-- subscriber.go: `Sync` with the `handle` of Subscriber/Segments: a sync of the head of a publisher.
use go_legs.Prelude.{
  ℕ, suc, ◌≤◌, ◌<◌, ◌^◌, ◌≡◌, refl, ap, subst, ◌∙◌, ℤ, pos, Bool, true, false, if◌then◌else◌,
  Option, none, some, List, [], ◌∷◌, ◌++◌, Result, ok, err, Outcome, returns, blocks, panics,
  is_none, arith,
}
use go_legs.Selector.{limit_depth, explore_recursive_with_stop_node}
use go_legs.Selector.Ipld.{IsIpld}
use go_legs.Subscriber.Async.{is_defined}
use go_legs.Subscriber.Segments.{
  Env, BlockHook, Ran, set_next_sync_cid, is_stop, latest_sync_link, handle_selector, handle,
}
use go_legs.Subscriber.Segments.Chain.{walk}
use go_legs.Subscriber.Segments.OnChain.{IsChain, handle_selected-walk}
use go_legs.Subscriber.Segments.Rounds.{go_on}
use go_legs.Subscriber.Explicit.{
  State, SyncError, peer_addrs, SyncerOf, Parts, Request, cfg_of, get_or_create_handler, remember,
  update_latest, has_room, make_syncer, sync_cid, sync,
}
use go_legs.Subscriber.Explicit.Latest.{make_syncer-keeps}

-- The CIDs that a `handle` returns.
abbrev result_of : {Cid Err W H : Type 0} → Ran Cid Err W H → Option (List Cid)
result_of (returns (ok l) _) = some l
result_of (returns (err _) _) = none
result_of blocks = none
result_of panics = none

-- The blocks of a chain from the head on that are newer than the latest sync, `n` at most.
abbrev pub newer :
    {Cid Peer Node Key Err W : Type 0}
    → Env Cid Peer Node Key Err W
    → Option Cid
    → (Cid → Cid)
    → ℕ
    → Cid
    → List Cid
newer env latest prev n head =
    let stop = latest_sync_link env latest in
    if is_stop env stop head then [] else walk prev (go_on env stop) n head

module _ {Cid Peer Addr Node Limiter Hook : Type 0}
    (parts : Parts Cid Peer Addr Node Limiter Hook) where
  -- What is known of a sync: it asks for the head of a publisher, with no selector of its own, and
  -- finds it, it has a hook, and `inEvents` has room.
  pub record FindsHead (q : Request parts) (s : State Cid Peer Addr)
      (syncer : SyncerOf Addr Limiter) (head : Cid) (hook : Hook) : Type 0 where
    pub some_peer : parts.is_empty q.peer ≡ false
    pub no_cid : is_defined parts.same_cid parts.undef q.next_cid ≡ false
    pub no_sel : q.sel ≡ none
    pub going : q.context_done ≡ false
    pub hooked : (cfg_of parts q).scoped_block_hook ≡ some hook
    pub is_http : Bool
    pub made :
        (make_syncer parts q.peer
          (peer_addrs parts q.peer_addr)
          q.possible
          parts.temp_addr_ttl
          (cfg_of parts q).rate_limiter
          s).0
        ≡ ok (syncer, is_http)
    pub found : parts.get_head syncer ≡ some head
    pub some_head : is_defined parts.same_cid parts.undef head ≡ true
    pub room : has_room parts s ≡ true

  -- What a sync that updated the latest sync returns and leaves.
  abbrev pub Updates :
      Request parts
      → Cid
      → List Cid
      → State Cid Peer Addr
      → Outcome (State Cid Peer Addr) (Result SyncError Cid)
      → Type 0
  Updates q c synced_cids s r =
      (t : State Cid Peer Addr) × (r ≡ returns (ok c) t)
      × (t.latest_syncs q.peer ≡ some c)
      × (t.in_events
          ≡ s.in_events ++ record { cid = c; peer = q.peer; synced_cids = synced_cids } ∷ [])

  sync_cid-Updates :
      (q : Request parts) (s : State Cid Peer Addr) (syncer : SyncerOf Addr Limiter)
      (is_http : Bool) (c : Cid) (synced_cids : List Cid)
      → q.context_done ≡ false
      → has_room parts s ≡ true
      → parts.handle syncer
          (s.latest_syncs q.peer)
          c
          (elim q.sel [ none ↦ parts.dss | some n ↦ some n ])
          (is_none q.sel)
          (cfg_of parts q).scoped_block_hook
          (cfg_of parts q).seg_depth_limit
        ≡ some synced_cids
      → Updates q c synced_cids s (sync_cid parts q syncer is_http c true s)
  unfolding sync_cid
  sync_cid-Updates q s syncer is_http c synced_cids going room ran = (
    remember parts q is_http
        (update_latest parts q c synced_cids (get_or_create_handler parts q.now q.peer s)),
    ground (arith, going, ran, room),
    ground arith,
    ground arith,
  )

  sync-Updates :
      (q : Request parts) (s : State Cid Peer Addr) (syncer : SyncerOf Addr Limiter) (head : Cid)
      (hook : Hook) (synced_cids : List Cid)
      → FindsHead q s syncer head hook
      → parts.handle syncer
          (s.latest_syncs q.peer)
          head
          parts.dss
          true
          (some hook)
          (cfg_of parts q).seg_depth_limit
        ≡ some synced_cids
      → Updates q head synced_cids s (sync parts q s)
  unfolding sync
  sync-Updates q s syncer head hook synced_cids finds ran =
      let cfg = cfg_of parts q in
      let addrs = peer_addrs parts q.peer_addr in
      let t =
        (make_syncer parts q.peer addrs q.possible parts.temp_addr_ttl cfg.rate_limiter s).1 in
      let (events, latest) =
        make_syncer-keeps parts q.peer addrs q.possible parts.temp_addr_ttl cfg.rate_limiter s in
      let same : sync_cid parts q syncer finds.is_http head true t ≡ sync parts q s = ground (
        arith, finds.some_peer, finds.made, finds.no_cid, finds.no_sel, finds.found,
        finds.some_head,
      ) in
      let there : parts.handle syncer (t.latest_syncs q.peer) head
            (elim q.sel [ none ↦ parts.dss | some n ↦ some n ]) (is_none q.sel)
            cfg.scoped_block_hook cfg.seg_depth_limit
          ≡ some synced_cids =
        rw (latest, finds.no_sel, finds.hooked) ran in
      let room : has_room parts t ≡ true = rw events finds.room in
      let (u, ran_to, moved, told) =
        sync_cid-Updates q t syncer finds.is_http head synced_cids finds.going room there in
      subst (Updates q head synced_cids s) same (
        u,
        ran_to,
        moved,
        told
            ∙ ap (λ l. l ++ record { cid = head; peer = q.peer; synced_cids = synced_cids } ∷ [])
                events,
      )

module _ {Cid Peer Addr Node Limiter Key Err W H : Type 0}
    (parts : Parts Cid Peer Addr Node Limiter (BlockHook Cid Peer Err H))
    (env : SyncerOf Addr Limiter → Env Cid Peer Node Key Err W) (fuel : ℕ) (w : W) (h : H) where
  -- The subscriber whose handlers sync by `handle`.
  abbrev pub with_handle : Parts Cid Peer Addr Node Limiter (BlockHook Cid Peer Err H)
  with_handle = record parts {
    handle = λ syncer latest c sel wrap_sel bh segdl.
        result_of (handle (env syncer) fuel c sel wrap_sel latest bh segdl w h);
  }

  handle-walk :
      (syncer : SyncerOf Addr Limiter) (latest : Option Cid) (bh : BlockHook Cid Peer Err H)
      (prev : Cid → Cid) (p : Peer) (d : ℕ) (segdl : ℤ) (head : Cid) (sel : Node)
      → IsIpld (env syncer).ipld
      → ((k : H) (r : Peer) (c : Cid) → (bh k r c).1 ≡ set_next_sync_cid (prev c) ∷ [])
      → IsChain (env syncer) prev p
      → (env syncer).sync_rec_limit ≡ limit_depth (pos (suc d))
      → explore_recursive_with_stop_node
          (env syncer).ipld
          (limit_depth (pos (suc d)))
          parts.dss
          (latest_sync_link (env syncer) latest)
        ≡ some sel
      → suc d < 2 ^ 63
      → suc d ≤ fuel
      → with_handle.handle syncer latest head parts.dss true (some bh) segdl
        ≡ some (
            if is_stop (env syncer) (latest_sync_link (env syncer) latest) head
            then []
            else walk prev (go_on (env syncer) (latest_sync_link (env syncer) latest)) (suc d) head)
  unfolding handle handle_selector
  handle-walk syncer latest bh prev p d segdl head sel laws names_next chain limit built small
        fits =
      let (z, ran) =
        handle_selected-walk laws bh prev p names_next chain fuel d segdl parts.dss
          (latest_sync_link (env syncer) latest) sel head w h built small fits in
      rw (handle, limit, built, ran) refl

  -- If the blocks of a publisher form a chain that Sync fetches without an error, the hook names the next
  -- block of it by each call, and `inEvents` has room, then a Sync for the head of the publisher, with a recursion
  -- limit of d + 1 (an int64), returns the head, sets the latest sync of the publisher to it, and sends
  -- one event, with the CIDs of the blocks from the head on, in order, up to the latest sync of
  -- before or d + 1 of them, and none if that is the head; in one go and in segments.
  pub sync-newer :
      (q : Request with_handle) (s : State Cid Peer Addr) (syncer : SyncerOf Addr Limiter)
      (head : Cid) (bh : BlockHook Cid Peer Err H) (prev : Cid → Cid) (p : Peer) (d : ℕ)
      (sel : Node)
      → FindsHead with_handle q s syncer head bh
      → IsIpld (env syncer).ipld
      → ((k : H) (r : Peer) (c : Cid) → (bh k r c).1 ≡ set_next_sync_cid (prev c) ∷ [])
      → IsChain (env syncer) prev p
      → (env syncer).sync_rec_limit ≡ limit_depth (pos (suc d))
      → explore_recursive_with_stop_node
          (env syncer).ipld
          (limit_depth (pos (suc d)))
          parts.dss
          (latest_sync_link (env syncer) (s.latest_syncs q.peer))
        ≡ some sel
      → suc d < 2 ^ 63
      → suc d ≤ fuel
      → Updates with_handle q head
          (newer (env syncer) (s.latest_syncs q.peer) prev (suc d) head)
          s
          (sync with_handle q s)
  sync-newer q s syncer head bh prev p d sel finds laws names_next chain limit built small fits =
      sync-Updates with_handle q s syncer head bh
        (newer (env syncer) (s.latest_syncs q.peer) prev (suc d) head) finds
        (handle-walk syncer (s.latest_syncs q.peer) bh prev p d
          (cfg_of with_handle q).seg_depth_limit head sel laws names_next chain limit built small
          fits)
