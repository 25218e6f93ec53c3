-- ===== src/Subscriber/Explicit/Tests.antt =====
-- subscriber.go, `Sync`: a sync of the head of peer 3.
use go_legs.Prelude.{
  ℕ, ◌≡◌, refl, pos, arith, true, false, if◌then◌else◌, ◌==◌, none, some, is_some, [], ◌∷◌, ite,
  ℕ_discrete, ok, returns, blocks,
}
use go_legs.Selector.{limit_depth}
use go_legs.Selector.Trees.{Tree, trees-IsIpld}
use go_legs.Selector.Tests.{up_to_7, up_to_7-built}
use go_legs.Subscriber.Segments.{Env, BlockHook, latest_sync_link}
use go_legs.Subscriber.Segments.OnChain.{IsChain}
use go_legs.Subscriber.Segments.Tests.{before, chain, counting}
use go_legs.Subscriber.Async.{is_defined}
use go_legs.Subscriber.Explicit.{
  State, Parts, Request, latest_undefined, remove_handler, get_latest_sync, set_latest_sync, sync,
  http_syncer, make_syncer, apply_all,
}
use go_legs.Subscriber.Explicit.Composed.{with_handle, newer, FindsHead, Updates, sync-newer}
use go_legs.Subscriber.Explicit.Handlers.{
  get_latest_sync-set_latest_sync, get_latest_sync-remove_handler,
}

abbrev parts : Parts ℕ ℕ ℕ ℕ ℕ ℕ
parts = record {
  same_cid = ℕ_discrete;
  undef = 0;
  same_peer = ℕ_discrete;
  is_empty = λ p. p == 0;
  is_http = λ a. a == 80;
  addr_ttl = 60;
  temp_addr_ttl = 5;
  dss = some 1;
  general_block_hook = none;
  seg_depth_limit = pos 10;
  rate_limiter_for = none;
  host_peerstore = true;
  new_http_syncer = λ p a. true;
  get_head = λ syncer. some 9;
  handle = λ syncer latest c sel wrap hook segdl. some (c ∷ []);
}

abbrev start : State ℕ ℕ ℕ
start = record {
  handlers = λ p. none;
  idle_handler_ttl = 10;
  latest_syncs = λ p. none;
  in_events = [];
  http_added = [];
  host_added = [];
}

abbrev head_of_3 : Request parts
head_of_3 = record {
  peer = 3;
  next_cid = 0;
  sel = none;
  peer_addr = some 80;
  opts = [];
  possible = [];
  context_done = false;
  now = 100;
}

sync-head :
    (t : State ℕ ℕ ℕ) × (sync parts head_of_3 start ≡ returns (ok 9) t)
    × (t.latest_syncs 3 ≡ some 9)
unfolding sync ℕ_discrete apply_all
sync-head = (_, refl, refl)

-- Another event is in the channel.
waits_to_send :
    sync parts head_of_3
      (record start { in_events = record { cid = 5; peer = 4; synced_cids = [] } ∷ [] })
    ≡ blocks
unfolding sync ℕ_discrete apply_all
waits_to_send = refl

get_latest_sync-set_latest_sync_example :
    ((set_latest_sync parts 100 3 9 start).0
      ≡ (if is_defined parts.same_cid parts.undef 9 then none else some latest_undefined))
    × (get_latest_sync parts 3 (set_latest_sync parts 100 3 9 start).1 ≡ (
        if is_defined parts.same_cid parts.undef 9
        then ite (parts.same_peer 3 3) (some 9) (get_latest_sync parts 3 start)
        else get_latest_sync parts 3 start))
get_latest_sync-set_latest_sync_example = get_latest_sync-set_latest_sync parts 100 3 3 9 start

get_latest_sync-remove_handler_example :
    ((remove_handler parts 3 start).0 ≡ is_some (start.handlers 3))
    × ((remove_handler parts 3 start).1.handlers 3 ≡ none)
    × (get_latest_sync parts 3 (remove_handler parts 3 start).1 ≡ get_latest_sync parts 3 start)
get_latest_sync-remove_handler_example = get_latest_sync-remove_handler parts 3 3 start

-- Peer 3 has block 9 at the front of its chain, and block 7 was synced before.
abbrev five_deep : Env ℕ ℕ Tree ℕ ℕ (Unit {0})
five_deep = record chain { sync_rec_limit = limit_depth (pos 5) }

five_deep-IsChain : IsChain five_deep before 3
five_deep-IsChain = record {
  traverses =
      λ w c sel k stop limited stops. (ground (arith, limited, stops), ground (arith, limited));
}

abbrev chain_parts : Parts ℕ ℕ ℕ Tree ℕ (BlockHook ℕ ℕ ℕ ℕ)
chain_parts = record {
  same_cid = ℕ_discrete;
  undef = 0;
  same_peer = ℕ_discrete;
  is_empty = λ p. p == 0;
  is_http = λ a. a == 80;
  addr_ttl = 60;
  temp_addr_ttl = 5;
  dss = none;
  general_block_hook = some counting;
  seg_depth_limit = pos 2;
  rate_limiter_for = none;
  host_peerstore = true;
  new_http_syncer = λ p a. true;
  get_head = λ syncer. some 9;
  handle = λ syncer latest c sel wrap hook segdl. none;
}

abbrev after_7 : State ℕ ℕ ℕ
after_7 = record start { latest_syncs = λ p. some 7 }

abbrev whole : Parts ℕ ℕ ℕ Tree ℕ (BlockHook ℕ ℕ ℕ ℕ)
whole = with_handle chain_parts (λ syncer. five_deep) 5 tt 0

abbrev head_of_chain : Request whole
head_of_chain = record {
  peer = 3;
  next_cid = 0;
  sel = none;
  peer_addr = some 80;
  opts = [];
  possible = [];
  context_done = false;
  now = 100;
}

head_of_chain-FindsHead : FindsHead whole head_of_chain after_7 (http_syncer 80 none) 9 counting
unfolding make_syncer apply_all ℕ_discrete
head_of_chain-FindsHead = record {
  some_peer = refl;
  no_cid = refl;
  no_sel = refl;
  going = refl;
  hooked = refl;
  is_http = true;
  made = refl;
  found = refl;
  some_head = refl;
  room = refl;
}

sync-newer_example :
    Updates whole head_of_chain 9
      (newer five_deep (some 7) before 5 9)
      after_7
      (sync whole head_of_chain after_7)
unfolding latest_sync_link ℕ_discrete
sync-newer_example =
    sync-newer chain_parts (λ syncer. five_deep) 5 tt 0 head_of_chain after_7 (http_syncer 80 none)
      9 counting before 3 4 up_to_7 head_of_chain-FindsHead trees-IsIpld (λ h q c. refl)
      five_deep-IsChain refl up_to_7-built (omega arith) (omega arith)
