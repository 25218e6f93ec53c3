-- ===== src/Subscriber/Lifecycle.antt =====
-- subscriber.go: NewSubscriber, Close, one round of `watch`, and the dispatch of block hooks. The
-- parts of a subscriber are those of the other modules.
pub mod Ends
mod Tests
use go_legs.Prelude.{
  ℕ, ℤ, pos, negsuc, Bool, true, false, not, ◌&&◌, if◌then◌else◌, Option, none, some, List, [], ◌∷◌,
  Result, ok, err, ◌>>=◌, ◌>>◌, fail_if, or_fail, is_some, is_none, ite, Outcome, returns, blocks,
  panics, and_then, ◌==◌,
}
use go_legs.Announce.Receiver.{Foreign, Moment, Receiver, Announce, next, close}
use go_legs.Announce.Receiver.Options.{
  ConfigOption, with_allow_peer, with_filter_ips, with_resend, with_topic, new_receiver,
}
use go_legs.Dtsync.Transfers.{DtSync, DtTexts, close_sync}
use go_legs.Dtsync.SetUp.{SetUp, new_sync, new_sync_with_dt}
use go_legs.Subscriber.Async.{SyncFinished}
use go_legs.Subscriber.Events.{Readers, dismiss_readers}
use go_legs.Subscriber.Explicit.{State, Parts, SyncerOf, get_or_create_handler, make_syncer}
use go_legs.Subscriber.Options.{Kinds, Settings, Setting, apply_settings}

-- `Subscriber`: its settings and parts, and which of its channels are closed.
pub record Whole (Cid Addr Key World : Type 0) (K : Kinds) : Type 0 where
  pub settings : Settings K
  pub handlers_state : State Cid K.Peer Addr
  pub receiver : Receiver Cid K.Peer Addr Key
  pub dt_sync : DtSync Cid K.Peer K.Limiter World
  pub readers : Readers (SyncFinished Cid K.Peer)
  pub scoped_hooks : K.Peer → Option K.Hook
  pub closing : Bool
  pub watch_ended : Bool
  pub in_events_closed : Bool
  -- `closeOnce` has run.
  pub close_ran : Bool

pub data SubscriberError : Type 0 where
  setting_failed datastore_given no_dt_sync no_peerstore no_receiver : SubscriberError

-- `wrapBlockHook`: the hook that is called for a block of a peer, if one is set for the peer.
unfoldable pub dispatch_hook : {Peer Hook : Type 0} → (Peer → Option Hook) → Peer → Option Hook
dispatch_hook scoped peer = scoped peer

-- The options for the receiver.
abbrev pub receiver_options : (K : Kinds) → Settings K → List (ConfigOption K.Peer K.Topic)
receiver_options K c =
    with_allow_peer K.Peer K.Topic c.allow_peer
    ∷ with_filter_ips K.Peer K.Topic c.filter_ips
    ∷ with_resend K.Peer K.Topic c.resend_announce
    ∷ with_topic K.Peer K.Topic c.topic
    ∷ []

-- An error of a constructor that is called.
abbrev renamed : {E A : Type 0} → SubscriberError → Result E A → Result SubscriberError A
renamed x (err e) = err x
renamed x (ok a) = ok a

-- What a round of `watch` comes to: it ends, drops the announcement, or hands the CID with a syncer
-- to the handler of the peer.
pub data Round (Cid Addr : Type 0) (K : Kinds) : Type 0 where
  ends dropped : Round Cid Addr K
  handed : K.Peer → Cid → SyncerOf Addr K.Limiter → Round Cid Addr K

module _ (Cid Addr Key World : Type 0) (K : Kinds) where
  -- The `dtsync.Sync`, on the manager that is given or on its own.
  abbrev new_dt_sync :
      SetUp → World → Settings K → Result SubscriberError (DtSync Cid K.Peer K.Limiter World)
  new_dt_sync u w c =
      or_fail
        (if is_some c.dt_manager
          then new_sync_with_dt Cid K.Peer K.Limiter u w
          else new_sync Cid K.Peer K.Limiter u w)
        no_dt_sync

  -- `NewSubscriber`, whose defaults are `initial`: whether there is a datastore, the set-up of the
  -- data transfer, whether the HTTP peerstore, the topic and the subscription are made, and the host.
  unfoldable pub new_subscriber :
      Settings K
      → Bool
      → SetUp
      → World
      → Bool
      → Bool
      → Bool
      → K.Peer
      → List (Setting K)
      → Result SubscriberError (Whole Cid Addr Key World K)
  unfolding apply_settings new_receiver new_sync new_sync_with_dt
  new_subscriber initial has_ds u w has_peerstore makes subscribes host_id opts = do
    c ← renamed setting_failed (apply_settings K opts initial)
    fail_if (is_some c.dt_manager && has_ds) datastore_given
    dt ← new_dt_sync u w c
    fail_if (not has_peerstore) no_peerstore
    r ←
        renamed no_receiver
          (new_receiver Cid Addr Key makes subscribes host_id (receiver_options K c))
    ok (record {
      settings = c;
      handlers_state = record {
        handlers = λ p. none;
        idle_handler_ttl = c.idle_handler_ttl;
        latest_syncs = λ p. none;
        in_events = [];
        http_added = [];
        host_added = [];
      };
      receiver = r;
      dt_sync = dt;
      readers = record {
        next_chan = 0;
        out_events_chans = [];
        buffer = λ c. [];
        is_closed = λ c. false;
        out_events_mutex = false;
      };
      scoped_hooks = λ p. none;
      closing = false;
      watch_ended = false;
      in_events_closed = false;
      close_ran = false;
    })

module _ {Cid Addr Key : Type 0} (World : Type 0) (K : Kinds)
    (env : Foreign Cid K.Peer Addr Key) where
  abbrev pub WholeCall : Type 0 → Type 0
  WholeCall A = Whole Cid Addr Key World K → Outcome (Whole Cid Addr Key World K) A

  -- The steps of `doClose` behind the waits: the data transfer, the readers and the events.
  unfoldable pub close_parts : DtTexts → Option (Option (List ℕ)) → WholeCall (Option (List ℕ))
  unfolding close_sync dismiss_readers
  close_parts texts dt_close s = elim (close_sync texts dt_close s.dt_sync) [
    | blocks ↦ blocks
    | panics ↦ panics
    | returns e d ↦ elim (dismiss_readers s.readers) [
      | blocks ↦ blocks
      | panics ↦ panics
      | returns _ r ↦
          if s.in_events_closed
          then panics
          else returns e (record s { dt_sync = d; readers = r; in_events_closed = true })
    ]
  ]

  -- `doClose`: `watch` ends once the receiver is closed; `running` counts the syncs in `asyncWG`.
  unfoldable pub do_close :
      DtTexts → Bool → Option (Option (List ℕ)) → ℕ → WholeCall (Option (List ℕ))
  unfolding close_parts close
  do_close texts closes dt_close running s = elim (close env closes s.receiver) [
    | blocks ↦ blocks
    | panics ↦ panics
    | returns _ r ↦
        if r.done && running == 0
        then close_parts texts dt_close
            (record s { closing = true; receiver = r; watch_ended = true })
        else blocks
  ]

  -- `Close`
  unfoldable pub close_subscriber :
      DtTexts → Bool → Option (Option (List ℕ)) → ℕ → WholeCall (Option (List ℕ))
  unfolding do_close
  close_subscriber texts closes dt_close running s =
      if s.close_ran
      then returns none s
      else do_close texts closes dt_close running (record s { close_ran = true })

  -- One round of `watch`, at a time and with what the HTTP peerstore has for the peer.
  unfoldable pub watch_round :
      {Node : Type 0}
      → Parts Cid K.Peer Addr Node K.Limiter K.Hook
      → Moment
      → ℕ
      → (K.Peer → List Addr)
      → WholeCall (Round Cid Addr K)
  unfolding next get_or_create_handler make_syncer
  watch_round parts moment now possible s = elim (next env moment s.receiver) [
    | blocks ↦ blocks
    | panics ↦ panics
    | returns (none, e) r ↦ returns ends (record s { receiver = r; watch_ended = true })
    | returns (some amsg, e) r ↦
        let st = get_or_create_handler parts now amsg.peer s.handlers_state in
        let (made, st₁) =
          make_syncer parts amsg.peer amsg.addrs (possible amsg.peer) parts.addr_ttl none st in
        returns
          (elim made [ err x ↦ dropped | ok (syncer, is_http) ↦ handed amsg.peer amsg.cid syncer ])
          (record s { receiver = r; handlers_state = st₁ })
  ]
