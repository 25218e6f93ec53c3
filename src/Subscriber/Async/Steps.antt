-- ===== src/Subscriber/Async/Steps.antt =====
-- subscriber.go: the steps of the goroutines of a handler, of `watch`, and of the calls that lock
-- `latestSyncMu`.
use go_legs.Prelude.{◌+◌, ◌-◌, ◌≤◌, ◌≡◌, true, false, Option, none, some, List, [], ◌∷◌, ◌++◌}
use go_legs.Subscriber.Async.{SyncFinished, Phase, Handler, handle_async, has_room, go}

abbrev pub noted : {Cid : Type 0} → Option Cid → List Cid → List Cid
noted none cs = cs
noted (some c) cs = c ∷ cs

module _ {Cid Peer Syncer : Type 0} (same_cid : Discrete Cid) (undef : Cid) where
  -- One step, and the CID announced in it. The code does not check that the CID is defined.
  pub data Step (h : Handler Cid Peer Syncer) : Option Cid → Handler Cid Peer Syncer → Type 0 where
    -- `watch` handles an announcement, until its context is done.
    announces :
        (c : Cid) (syncer : Syncer)
        → h.cancelled ≡ false
        → Step h (some c) (handle_async same_cid undef c syncer h)
    -- A goroutine goes on, and `handle` comes to whatever result.
    goes :
        (result : Cid → Option Syncer → Option (List Cid)) (xs ys : List (Phase Cid Syncer))
        (p : Phase Cid Syncer) (t : Handler Cid Peer Syncer)
        → h.goroutines ≡ xs ++ p ∷ ys
        → go same_cid undef result xs p ys h ≡ some t
        → Step h none t
    cancels : Step h none (record h { cancelled = true })
    -- `Sync` and `SetLatestSync` on the same publisher.
    call_locks :
        h.latest_sync_mu ≡ false
        → Step h none (record h { latest_sync_mu = true; call_holds = true })
    call_sets : (c : Cid) → h.call_holds ≡ true → Step h none (record h { latest_sync = some c })
    call_unlocks :
        h.call_holds ≡ true → Step h none (record h { latest_sync_mu = false; call_holds = false })
    -- `distributeEvents` receives an event, and others send one.
    receives :
        (event : SyncFinished Cid Peer) (rest : List (SyncFinished Cid Peer))
        → h.in_events ≡ event ∷ rest
        → Step h none (record h { in_events = rest })
    other_sends :
        (event : SyncFinished Cid Peer)
        → has_room h ≡ true
        → Step h none (record h { in_events = h.in_events ++ event ∷ [] })
    -- The goroutines of other handlers.
    other_starts : Step h none (record h { async_wg = h.async_wg + 1; others = h.others + 1 })
    other_ends :
        1 ≤ h.others → Step h none (record h { async_wg = h.async_wg - 1; others = h.others - 1 })

  -- A run, and the CIDs announced in it, the latest first.
  pub data Run (h : Handler Cid Peer Syncer) : List Cid → Handler Cid Peer Syncer → Type 0 where
    here : Run h [] h
    more :
        {cs : List Cid} {o : Option Cid} {s t : Handler Cid Peer Syncer}
        → Run h cs s
        → Step s o t
        → Run h (noted o cs) t
