-- ===== src/Subscriber/Lifecycle/Tests.antt =====
-- A subscriber from its constructor to its end.
use go_legs.Prelude.{
  ℕ, negsuc, ◌≡◌, refl, ap, true, false, Option, none, some, List, [], ◌∷◌, ok, err, ℕ_discrete,
  returns, blocks, panics, arith,
}
use go_legs.Announce.Lru.{new_lru}
use go_legs.Announce.Gossip.CborGen.{Cbg}
use go_legs.Announce.Receiver.{Foreign, pick_channel, announce_cache_size}
use go_legs.Announce.Receiver.Options.{with_allow_peer, with_filter_ips, with_resend, with_topic}
use go_legs.Dtsync.Waits.{find, new_waits, notify_on_sync_done}
use go_legs.Dtsync.Waits.Runs.{notify-IsSound}
use go_legs.Dtsync.Waits.Wakes.{new_waits-IsSound}
use go_legs.Dtsync.Transfers.{SyncKey, DtTexts}
use go_legs.Dtsync.SetUp.{SetUp}
use go_legs.Subscriber.Async.{SyncFinished}
use go_legs.Subscriber.Events.{Readers, on_sync_finished, stalled}
use go_legs.Subscriber.Events.Times.{times}
use go_legs.Subscriber.Explicit.{Parts, http_syncer}
use go_legs.Subscriber.Options.{Kinds, Settings, set_addr_ttl, set_dt_manager}
use go_legs.Subscriber.Lifecycle.{
  Whole, datastore_given, new_subscriber, close_subscriber, watch_round, handed, dispatch_hook,
}
use go_legs.Subscriber.Lifecycle.Ends.{
  IsOpen, IsShut, close_subscriber-IsShut, new_subscriber-IsOpen,
}

abbrev kinds : Kinds
kinds = record {
  Peer = ℕ;
  Topic = ℕ;
  Manager = ℕ;
  Client = ℕ;
  Limit = ℕ;
  Limiter = ℕ;
  Hook = ℕ;
  Latest = ℕ;
}

abbrev defaults : Settings kinds
defaults = record {
  addr_ttl = 1;
  allow_peer = none;
  filter_ips = false;
  topic = none;
  dt_manager = none;
  block_hook = none;
  http_client = none;
  sync_rec_limit = 0;
  idle_handler_ttl = 60;
  latest_sync_handler = none;
  rate_limiter_for = none;
  resend_announce = false;
  seg_depth_limit = negsuc 0;
}

abbrev no_errors : SetUp
no_errors = record {
  new_error = none;
  voucher_error = none;
  result_error = none;
  start_error = none;
  ready_error = none;
  transport_error = none;
}

abbrev fresh : Whole ℕ ℕ ℕ ℕ kinds
fresh = record {
  settings = record defaults { addr_ttl = 5 };
  handlers_state = record {
    handlers = λ p. none;
    idle_handler_ttl = 60;
    latest_syncs = λ p. none;
    in_events = [];
    http_added = [];
    host_added = [];
  };
  receiver = record {
    allow_peer = none;
    filter_ips = false;
    resend = false;
    host_id = 1;
    announce_cache = new_lru announce_cache_size;
    locked = false;
    is_closed = false;
    subscribed = true;
    done = false;
    watch_done = false;
    owns_topic = true;
    in_topic = true;
    out_chan = [];
    published = [];
  };
  dt_sync = record { waits = new_waits; rate_limiters = λ p. none; hooked = []; world = 0 };
  readers = record {
    next_chan = 0;
    out_events_chans = [];
    buffer = λ c. [];
    is_closed = λ c. false;
    out_events_mutex = false;
  };
  scoped_hooks = λ p. none;
  closing = false;
  watch_ended = false;
  in_events_closed = false;
  close_ran = false;
}

makes :
    new_subscriber ℕ ℕ ℕ ℕ kinds defaults true no_errors 0 true true true 1
      (set_addr_ttl kinds 5 ∷ [])
    ≡ ok fresh
unfolding new_subscriber set_addr_ttl with_allow_peer with_filter_ips with_resend with_topic
makes = refl

-- A datastore cannot be given beside a data transfer manager.
refused :
    new_subscriber ℕ ℕ ℕ ℕ kinds defaults true no_errors 0 true true true 1
      (set_dt_manager kinds (some 3) ∷ [])
    ≡ err datastore_given
unfolding new_subscriber set_dt_manager
refused = refl

abbrev same_key : Discrete (SyncKey ℕ ℕ)
same_key (a, b) (c, d) = elim (ℕ_discrete a c) [
  | no n ↦ no (λ r. n (ap (λ (x : ℕ × ℕ). x.0) r))
  | yes e ↦ elim (ℕ_discrete b d) [
    | no n ↦ no (λ r. n (ap (λ (x : ℕ × ℕ). x.1) r))
    | yes q ↦ yes (λ i. (e i, q i))
  ]
]

abbrev no_cbor : Cbg ℕ
no_cbor = record {
  max_length = 0;
  byte_array_max_len = 0;
  write_header = λ maj n. [];
  read_header = λ r. none;
  write_cid = λ c. none;
  read_cid = λ r. none;
  read_string = λ r. none;
}

abbrev env : Foreign ℕ ℕ ℕ ℕ
env = record {
  cid_string = λ c. c;
  same_key = ℕ_discrete;
  same_peer = ℕ_discrete;
  to_ip = λ a. none;
  addr_bytes = λ a. a ∷ [];
  addr_from_bytes = λ v. none;
  peer_string = λ p. p ∷ [];
  peer_decode = λ v. none;
  peer_from_bytes = λ v. none;
  cbg = no_cbor;
}

abbrev Listed : Type 0
Listed = Readers (SyncFinished ℕ ℕ)

abbrev with_reader : Listed → Listed
unfolding on_sync_finished
with_reader r = elim (on_sync_finished r) [ returns c t ↦ t | blocks ↦ r | panics ↦ r ]

-- Two readers, and a sync in progress.
abbrev used : Whole ℕ ℕ ℕ ℕ kinds
unfolding notify_on_sync_done with_reader
used = record fresh {
  readers = with_reader (with_reader fresh.readers);
  dt_sync = record fresh.dt_sync { waits = (notify_on_sync_done same_key (8, 2) new_waits).1 };
}

used-IsOpen : IsOpen ℕ kinds same_key env used
unfolding used times find
used-IsOpen = record {
  not_run = refl;
  events_open = refl;
  unlocked = refl;
  receiver_open = refl;
  waits_sound = notify-IsSound same_key new_waits (8, 2) (new_waits-IsSound same_key) refl;
  readers_sound = λ c. ground arith;
  readers_unlocked = refl;
}

abbrev texts : DtTexts
texts = record { cancelled_text = []; failed_text = []; closed_text = [] }

close_subscriber-IsShut_example :
    (e : Option (List ℕ)) × (t : Whole ℕ ℕ ℕ ℕ kinds) × (close_subscriber ℕ kinds env texts true
        none 0 used
      ≡ returns e t)
    × IsShut ℕ kinds same_key env used t
    × ((event : SyncFinished ℕ ℕ)
        → close_subscriber ℕ kinds env texts true none 0
            (record used { readers = stalled event used.readers })
          ≡ blocks)
close_subscriber-IsShut_example =
    close_subscriber-IsShut ℕ kinds same_key env texts true none used used-IsOpen

fresh-IsOpen : IsOpen ℕ kinds same_key env fresh
fresh-IsOpen =
    new_subscriber-IsOpen ℕ kinds same_key env defaults true no_errors 0 true true true 1
      (set_addr_ttl kinds 5 ∷ []) fresh makes

abbrev parts : Parts ℕ ℕ ℕ ℕ ℕ ℕ
parts = record {
  same_cid = ℕ_discrete;
  undef = 0;
  same_peer = ℕ_discrete;
  is_empty = λ p. false;
  is_http = λ a. true;
  addr_ttl = 5;
  temp_addr_ttl = 1;
  dss = none;
  general_block_hook = none;
  seg_depth_limit = negsuc 0;
  rate_limiter_for = none;
  host_peerstore = true;
  new_http_syncer = λ p a. true;
  get_head = λ s. none;
  handle = λ s latest c sel wrap hook depth. none;
}

-- An announcement of the CID 8 by the peer 2 at the HTTP address 9.
abbrev announced : Whole ℕ ℕ ℕ ℕ kinds
announced = record fresh {
  receiver = record fresh.receiver {
    out_chan = record { cid = 8; peer = 2; addrs = some 9 ∷ [] } ∷ [];
  };
}

hands_on :
    (t : Whole ℕ ℕ ℕ ℕ kinds) × (watch_round ℕ kinds env parts
        (record { pick = pick_channel; context_done = false; publishes = true })
        10
        (λ p. [])
        announced
      ≡ returns (handed 2 8 (http_syncer 9 none)) t)
    × (t.handlers_state.handlers 2 ≡ some 70)
unfolding watch_round ℕ_discrete
hands_on = (_, refl, refl)

no_hook : dispatch_hook fresh.scoped_hooks 2 ≡ none
unfolding dispatch_hook
no_hook = refl
