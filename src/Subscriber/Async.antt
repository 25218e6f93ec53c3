-- ===== src/Subscriber/Async.antt =====
-- subscriber.go, `handler.handleAsync`: the goroutines that sync what was announced of one publisher.
-- A goroutine is the phase that it is in; `handle` is a parameter, the result of each call of it. The
-- channel `inEvents` and `asyncWG` are those of the subscriber, which the handlers share.
pub mod Steps
pub mod Counts
pub mod Sound
pub mod Runs
pub mod Progress
mod Tests
use go_legs.Prelude.{
  ℕ, ◌+◌, ◌-◌, Bool, true, false, if◌then◌else◌, Option, none, some, List, [], ◌∷◌, ◌++◌, ite, ltb,
  length,
}

pub record SyncFinished (Cid Peer : Type 0) : Type 0 where
  pub cid : Cid
  pub peer : Peer
  pub synced_cids : List Cid

-- A goroutine before it has `latestSyncMu`, with it, with the CID that was pending, and with what it
-- synced and has yet to send to `inEvents`.
pub data Phase (Cid Syncer : Type 0) : Type 0 where
  waiting : Phase Cid Syncer
  locked : Phase Cid Syncer
  handling : Cid → Option Syncer → Phase Cid Syncer
  sending : Cid → List Cid → Phase Cid Syncer

pub record Handler (Cid Peer Syncer : Type 0) : Type 0 where
  pub peer : Peer
  pub pending_cid : Cid
  pub pending_syncer : Option Syncer
  pub goroutines : List (Phase Cid Syncer)
  -- `latestSyncMu` is held, and held by a call of `Sync` or `SetLatestSync`.
  pub latest_sync_mu : Bool
  pub call_holds : Bool
  -- The counter of `asyncWG`, and how many of what it counts are goroutines of other handlers.
  pub async_wg : ℕ
  pub others : ℕ
  -- The context of `watch` is done.
  pub cancelled : Bool
  pub latest_sync : Option Cid
  -- What is in the channel `inEvents`, of capacity one.
  pub in_events : List (SyncFinished Cid Peer)
  -- What the goroutines sent to it, and what `UncacheCid` was called for, the latest first.
  pub sent : List (SyncFinished Cid Peer)
  pub uncached : List Cid

module _ {Cid : Type 0} (same_cid : Discrete Cid) (undef : Cid) where
  abbrev pub is_defined : Cid → Bool
  is_defined c = ite (same_cid c undef) false true

module _ {Cid Peer Syncer : Type 0} where
  -- The end of a goroutine: its deferred calls.
  abbrev pub leave : List (Phase Cid Syncer) → Handler Cid Peer Syncer → Handler Cid Peer Syncer
  leave others h = record h {
    goroutines = others;
    latest_sync_mu = false;
    async_wg = h.async_wg - 1;
  }

  -- A goroutine behind its call of `handle`, by its result; `none` is an error.
  unfoldable pub finish :
      List (Phase Cid Syncer)
      → List (Phase Cid Syncer)
      → Cid
      → Option (List Cid)
      → Handler Cid Peer Syncer
      → Handler Cid Peer Syncer
  finish xs ys c none h = leave (xs ++ ys) (record h { uncached = c ∷ h.uncached })
  finish xs ys c (some synced_cids) h = record h {
    goroutines = xs ++ sending c synced_cids ∷ ys;
    latest_sync = some c;
  }

  -- `inEvents` takes an event.
  abbrev pub has_room : Handler Cid Peer Syncer → Bool
  has_room h = ltb (length h.in_events) 1

  -- The send of a goroutine to `inEvents`, once there is room, and its end.
  unfoldable pub send_event :
      List (Phase Cid Syncer)
      → List (Phase Cid Syncer)
      → Cid
      → List Cid
      → Handler Cid Peer Syncer
      → Handler Cid Peer Syncer
  send_event xs ys c synced_cids h =
      let event : SyncFinished Cid Peer = record {
        cid = c;
        peer = h.peer;
        synced_cids = synced_cids;
      } in
      leave (xs ++ ys) (record h { in_events = h.in_events ++ event ∷ []; sent = event ∷ h.sent })

module _ {Cid Peer Syncer : Type 0} (same_cid : Discrete Cid) (undef : Cid) where
  -- `handleAsync`, but for the goroutine that it starts.
  unfoldable pub handle_async : Cid → Syncer → Handler Cid Peer Syncer → Handler Cid Peer Syncer
  handle_async next_cid syncer h =
      let queued = record h { pending_cid = next_cid; pending_syncer = some syncer } in
      if is_defined same_cid undef h.pending_cid
      then queued
      else record queued { goroutines = h.goroutines ++ waiting ∷ []; async_wg = h.async_wg + 1 }

  -- A goroutine behind the lock, between `xs` and `ys`: it gives up or takes what is pending.
  unfoldable pub take_pending :
      List (Phase Cid Syncer)
      → List (Phase Cid Syncer)
      → Handler Cid Peer Syncer
      → Handler Cid Peer Syncer
  take_pending xs ys h = if h.cancelled then leave (xs ++ ys) h else record h {
    goroutines = xs ++ handling h.pending_cid h.pending_syncer ∷ ys;
    pending_cid = undef;
    pending_syncer = none;
  }

  -- What a goroutine does next, if it need not wait: for `latestSyncMu`, or for room in `inEvents`.
  -- `result` is what `handle` comes to.
  unfoldable pub go :
      (Cid → Option Syncer → Option (List Cid))
      → List (Phase Cid Syncer)
      → Phase Cid Syncer
      → List (Phase Cid Syncer)
      → Handler Cid Peer Syncer
      → Option (Handler Cid Peer Syncer)
  unfolding take_pending finish send_event
  go result xs waiting ys h =
      if h.latest_sync_mu
      then none
      else some (record h { goroutines = xs ++ locked ∷ ys; latest_sync_mu = true })
  go result xs locked ys h = some (take_pending xs ys h)
  go result xs (handling c syncer) ys h = some (finish xs ys c (result c syncer) h)
  go result xs (sending c synced_cids) ys h =
      if has_room h then some (send_event xs ys c synced_cids h) else none
