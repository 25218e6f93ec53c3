-- ===== src/Lib.antt =====
-- go-legs: synchronisation of linked data between a publisher and its subscribers.
--
-- A publisher announces the CID of its latest data on a pubsub topic or by a direct message. The
-- receiver of a subscriber (announce/receiver.go) checks announcements, drops the ones it has seen
-- (announce/string_lru.go) and passes the rest on. For each publisher a handler of the subscriber
-- (subscriber.go) then syncs the data behind the CID, in one go or in segments of limited depth, with
-- a selector that stops at the latest sync (selector.go).
--
-- Prelude: lists, options, results and tests on the native numbers, int64 arithmetic, and the outcome
--   of a call that may never return.
-- Announce/Lru: announce/string_lru.go. A map is a function and container/list the list of its
--   elements; `remove` is `remove_key`.
-- Announce/Gossip: announce/gossiptopic/message.go and cbor_message.go. `marshal` is MarshalCBOR,
--   `unmarshal` UnmarshalCBOR; cbor-gen is the record `Cbg` with the laws `IsCbor`.
-- Announce/Receiver: announce/receiver.go and announce/option.go. A call is a function on the state of
--   the receiver; the branch of a `select` that is taken and the success of foreign calls are
--   arguments. One round of `watch` is `on_message` or `on_read_error`.
-- Mautil: FilterPrivateIPs of mautil/mautil.go. Mautil/Ranges has the CIDR blocks that it is to remove.
-- Selector: selector.go. Nodes of go-ipld-prime are the record `IpldOps` with the laws `IsIpld`.
-- Subscriber/Segments: `segmentedSync` and `handler.handle` of subscriber.go. The syncer is a
--   parameter. `SegSyncLoop` runs on fuel, one unit for a round; with a depth limit, as
--   much fuel as the limit is enough.
-- Subscriber/Async: `handler.handleAsync` of subscriber.go. A goroutine is the phase that it is in, and
--   a run interleaves the steps of the goroutines with announcements, with calls that lock
--   latestSyncMu, and with the others that use inEvents and asyncWG.
-- Subscriber/Events: OnSyncFinished, its cancel function, distributeEvents and the part of doClose that
--   dismisses the readers, of subscriber.go. A channel is a number; a call waits for outEventsMutex,
--   which a round of distributeEvents holds while it waits for a reader (`stalled`).
-- Subscriber/Options, Subscriber/Lifecycle: option.go, NewSubscriber, Close, one round of `watch` and
--   the dispatch of block hooks, of subscriber.go.
-- Subscriber/Explicit: `Sync` and its options, makeSyncer, and the handlers and latest syncs of
--   publishers, of subscriber.go and option.go. `handle` and the peerstores are parameters;
--   Subscriber/Explicit/Composed puts the `handle` of Subscriber/Segments in the place of the first.
-- Traversal: a traversal of go-ipld-prime, as a program that asks a link system for blocks.
-- Head: p2p/protocol/head/head.go. `query_root_cid` is QueryRootCid, with path.Join and path.Base in
--   Head/Paths.
-- Dtsync/Waits: the map `syncDoneChans` of dtsync/sync.go, whose channels are numbers.
-- Dtsync/Transfers: the block hooks, the rate limiters and `onEvent` of dtsync/sync.go.
-- Dtsync/Syncer: dtsync/syncer.go. What others do during the wait for a transfer is the parameter
--   `meanwhile`. The loop runs on fuel; more fuel than the rank of the CID is enough, where each
--   rate limit error names a block of a lower rank.
-- Dtsync/Voucher: dtsync/voucher.go and voucher_cbor_gen.go.
-- Dtsync/SetUp, Dtsync/Publisher: dtsync/util.go, publisher.go and option.go.
-- Httpsync/Fetch: the fetching of blocks in httpsync/sync.go. The loop of `walkFetch` runs on fuel, of
--   which one unit is enough.
-- Httpsync/Heads: httpsync/message.go, publisher.go, and GetHead of sync.go.
-- Httpsync/Multiaddr: httpsync/multiaddr/convert.go. net.ParseIP is a parameter; the escaping of paths
--   is in Httpsync/Escape.
--
-- Not modelled: explicit syncs that run beside Close, the durations of waits, log output, the set-up
-- of pubsub, and nil messages.
pub mod Prelude
pub mod Announce
pub mod Mautil
pub mod Selector
pub mod Subscriber
pub mod Traversal
pub mod Head
pub mod Dtsync
pub mod Httpsync
