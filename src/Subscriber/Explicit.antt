-- ===== src/Subscriber/Explicit.antt =====
-- subscriber.go and option.go: explicit syncs, the syncer of a publisher, and the handlers. Peerstores
-- are foreign: the state has the addresses added to them, the latest first, and what they hold for the
-- publisher is an argument.
pub mod Cfg
pub mod Latest
pub mod Handlers
pub mod Composed
mod Tests
unfoldable pub use Cfg.*
use go_legs.Prelude.{
  ℕ, ◌+◌, ℤ, Bool, true, false, not, ◌&&◌, ◌||◌, if◌then◌else◌, ltb, Option, none, some, List, [],
  ◌∷◌, Result, ok, err, ite, is_none, is_some, length, ◌++◌, Outcome, returns, blocks,
}
use go_legs.Subscriber.Async.{SyncFinished, is_defined}

pub record State (Cid Peer Addr : Type 0) : Type 0 where
  -- When the handler of a peer expires, if it has one.
  pub handlers : Peer → Option ℕ
  pub idle_handler_ttl : ℕ
  pub latest_syncs : Peer → Option Cid
  -- What is in the channel `inEvents`, of capacity one.
  pub in_events : List (SyncFinished Cid Peer)
  -- The calls of AddAddr and AddAddrs: an address and its TTL.
  pub http_added : List (Peer × Addr × ℕ)
  pub host_added : List (Peer × Option Addr × ℕ)

pub data SyncError : Type 0 where
  empty_peer http_syncer_failed head_failed sync_cancelled handler_failed latest_undefined :
      SyncError

-- The syncer of httpsync for an address, or that of dtsync.
pub data SyncerOf (Addr Limiter : Type 0) : Type 0 where
  http_syncer : Addr → Option Limiter → SyncerOf Addr Limiter
  dt_syncer : Option Limiter → SyncerOf Addr Limiter

-- What the subscriber is made of, and what it uses: `handle` is the result of the method of that name
-- for what `GetLatestSync` finds, `none` if it fails, and the world at a call is the rest.
pub record Parts (Cid Peer Addr Node Limiter Hook : Type 0) : Type 0 where
  pub same_cid : Discrete Cid
  pub undef : Cid
  pub same_peer : Discrete Peer
  pub is_empty : Peer → Bool
  pub is_http : Addr → Bool
  pub addr_ttl : ℕ
  pub temp_addr_ttl : ℕ
  pub dss : Option Node
  pub general_block_hook : Option Hook
  pub seg_depth_limit : ℤ
  pub rate_limiter_for : Option (Peer → Option Limiter)
  -- The host has a peerstore.
  pub host_peerstore : Bool
  pub new_http_syncer : Peer → Addr → Bool
  pub get_head : SyncerOf Addr Limiter → Option Cid
  pub handle :
      SyncerOf Addr Limiter
      → Option Cid
      → Cid
      → Option Node
      → Bool
      → Option Hook
      → ℤ
      → Option (List Cid)

module _ {Cid Peer Addr Node Limiter Hook : Type 0}
    (parts : Parts Cid Peer Addr Node Limiter Hook) where
  abbrev put_peer : {A : Type 0} → (Peer → A) → Peer → A → Peer → A
  put_peer f p v = λ q. ite (parts.same_peer q p) v (f q)

  -- `SetLatestSync` and `GetLatestSync` of the `DefaultLatestSyncHandler`.
  abbrev default_set_latest_sync : Peer → Cid → (Peer → Option Cid) → Peer → Option Cid
  default_set_latest_sync p c m = put_peer m p (some c)

  abbrev pub default_get_latest_sync : Peer → (Peer → Option Cid) → Option Cid
  default_get_latest_sync p m = m p

  -- `firstHTTPAddr`; a nil address is `none`.
  unfoldable pub first_http_addr : List (Option Addr) → Option Addr
  first_http_addr [] = none
  first_http_addr (none ∷ addrs) = first_http_addr addrs
  first_http_addr (some addr ∷ addrs) =
      let rest = first_http_addr addrs in if parts.is_http addr then some addr else rest

  -- The HTTP address that `makeSyncer` uses; `possible` is what the HTTP peerstore has for the peer.
  unfoldable pub http_addr_of : List (Option Addr) → List Addr → Option Addr
  unfolding first_http_addr
  http_addr_of [] [] = none
  http_addr_of [] (addr ∷ possible) = some addr
  http_addr_of (addr ∷ addrs) possible = first_http_addr (addr ∷ addrs)

  abbrev limiter_of : Peer → Option Limiter → Option Limiter
  limiter_of peer (some l) = some l
  limiter_of peer none = elim parts.rate_limiter_for [ none ↦ none | some for ↦ for peer ]

  -- `AddAddrs`
  abbrev add_addrs :
      Peer → List (Option Addr) → ℕ → List (Peer × Option Addr × ℕ) → List (Peer × Option Addr × ℕ)
  add_addrs peer [] ttl added = added
  add_addrs peer (addr ∷ addrs) ttl added = (peer, addr, ttl) ∷ add_addrs peer addrs ttl added

  -- `makeSyncer`: the syncer and whether it is of httpsync.
  unfoldable pub make_syncer :
      Peer
      → List (Option Addr)
      → List Addr
      → ℕ
      → Option Limiter
      → State Cid Peer Addr
      → Result SyncError (SyncerOf Addr Limiter × Bool) × State Cid Peer Addr
  unfolding http_addr_of
  make_syncer peer addrs possible ttl limiter s =
      let limits = limiter_of peer limiter in
      elim (http_addr_of addrs possible) [
        | some addr ↦
            (let t = record s { http_added = (peer, addr, ttl) ∷ s.http_added } in
              if parts.new_http_syncer peer addr
              then (ok (http_syncer addr limits, true), t)
              else (err http_syncer_failed, t))
        | none ↦ (
          ok (dt_syncer limits, false),
          if parts.host_peerstore
              then record s { host_added = add_addrs peer addrs ttl s.host_added }
              else s,
        )
      ]

  -- `getOrCreateHandler` at a time: the handler expires later.
  unfoldable pub get_or_create_handler : ℕ → Peer → State Cid Peer Addr → State Cid Peer Addr
  get_or_create_handler now peer s = record s {
    handlers = put_peer s.handlers peer (some (now + s.idle_handler_ttl));
  }

  unfoldable pub remove_handler : Peer → State Cid Peer Addr → Bool × State Cid Peer Addr
  remove_handler peer s = elim (s.handlers peer) [
    | none ↦ (false, s)
    | some _ ↦ (true, record s { handlers = put_peer s.handlers peer none })
  ]

  -- One round of `idleHandlerCleaner` at a time.
  unfoldable pub clean_idle : ℕ → State Cid Peer Addr → State Cid Peer Addr
  clean_idle now s = record s {
    handlers = λ p. elim (s.handlers p) [
      | none ↦ none
      | some expires ↦ if ltb expires now then none else some expires
    ];
  }

  -- `GetLatestSync`: the CID of the link.
  unfoldable pub get_latest_sync : Peer → State Cid Peer Addr → Option Cid
  get_latest_sync peer s = elim (default_get_latest_sync peer s.latest_syncs) [
    | none ↦ none
    | some c ↦ if is_defined parts.same_cid parts.undef c then some c else none
  ]

  -- `SetLatestSync` at a time.
  unfoldable pub set_latest_sync :
      ℕ → Peer → Cid → State Cid Peer Addr → Option SyncError × State Cid Peer Addr
  unfolding get_or_create_handler
  set_latest_sync now peer c s =
      if is_defined parts.same_cid parts.undef c
      then (
        none,
        record (get_or_create_handler now peer s) {
          latest_syncs = default_set_latest_sync peer c s.latest_syncs;
        },
      )
      else (some latest_undefined, s)

  -- The arguments of a `Sync`, what the peerstore has for its peer, whether its context is done, and
  -- when it asks for the handler.
  pub record Request : Type 0 where
    pub peer : Peer
    pub next_cid : Cid
    pub sel : Option Node
    pub peer_addr : Option Addr
    pub opts : List (SyncCfg Limiter Hook → SyncCfg Limiter Hook)
    pub possible : List Addr
    pub context_done : Bool
    pub now : ℕ

  abbrev pub peer_addrs : Option Addr → List (Option Addr)
  peer_addrs none = []
  peer_addrs (some addr) = some addr ∷ []

  abbrev pub cfg_of : Request → SyncCfg Limiter Hook
  cfg_of q = apply_all q.opts (record {
    always_update_latest = false;
    rate_limiter = none;
    scoped_block_hook = parts.general_block_hook;
    seg_depth_limit = parts.seg_depth_limit;
  })

  -- The end of a `Sync` that succeeded: the address is kept.
  abbrev pub remember : Request → Bool → State Cid Peer Addr → State Cid Peer Addr
  remember q is_http s = elim q.peer_addr [
    | none ↦ s
    | some addr ↦
        if is_http
        then record s { http_added = (q.peer, addr, parts.addr_ttl) ∷ s.http_added }
        else if parts.host_peerstore
        then record s { host_added = (q.peer, some addr, parts.addr_ttl) ∷ s.host_added }
        else s
  ]

  -- `SetLatestSync` of the latest sync handler, and the event once `inEvents` has room for it.
  abbrev pub update_latest : Request → Cid → List Cid → State Cid Peer Addr → State Cid Peer Addr
  update_latest q c synced_cids s = record s {
    latest_syncs = default_set_latest_sync q.peer c s.latest_syncs;
    in_events = s.in_events ++ record { cid = c; peer = q.peer; synced_cids = synced_cids } ∷ [];
  }

  abbrev pub has_room : State Cid Peer Addr → Bool
  has_room s = ltb (length s.in_events) 1

  abbrev pub SyncCall : Type 0
  SyncCall = State Cid Peer Addr → Outcome (State Cid Peer Addr) (Result SyncError Cid)

  -- `Sync` with the CID to sync and whether it updates the latest sync.
  unfoldable pub sync_cid : Request → SyncerOf Addr Limiter → Bool → Cid → Bool → SyncCall
  unfolding get_or_create_handler
  sync_cid q syncer is_http c updates s =
      if q.context_done
      then returns (err sync_cancelled) s
      else (let t = get_or_create_handler q.now q.peer s in
          let cfg = cfg_of q in
          elim (parts.handle syncer (default_get_latest_sync q.peer t.latest_syncs) c
            (elim q.sel [ none ↦ parts.dss | some n ↦ some n ]) (is_none q.sel)
            cfg.scoped_block_hook cfg.seg_depth_limit) [
              | none ↦ returns (err handler_failed) t
              | some synced_cids ↦
                  if updates && not (has_room t)
                  then blocks
                  else returns (ok c)
                      (remember q is_http (if updates then update_latest q c synced_cids t else t))
            ])

  -- `Sync`
  unfoldable pub sync : Request → SyncCall
  unfolding sync_cid make_syncer
  sync q s =
      if parts.is_empty q.peer
      then returns (err empty_peer) s
      else (let cfg = cfg_of q in
          let (made, t) =
            make_syncer q.peer (peer_addrs q.peer_addr) q.possible parts.temp_addr_ttl
              cfg.rate_limiter s in
          elim made [
            | err e ↦ returns (err e) t
            | ok (syncer, is_http) ↦
                if is_defined parts.same_cid parts.undef q.next_cid
                then sync_cid q syncer is_http q.next_cid cfg.always_update_latest t
                else elim (parts.get_head syncer) [
                  | none ↦ returns (err head_failed) t
                  | some head ↦
                      if is_defined parts.same_cid parts.undef head
                      then sync_cid q syncer is_http head
                          (cfg.always_update_latest || is_none q.sel) t
                      else returns (ok parts.undef) t
                ]
          ])
