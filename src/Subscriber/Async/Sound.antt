-- ===== src/Subscriber/Async/Sound.antt =====
-- subscriber.go, `handleAsync`: what holds of a handler after any interleaving of its goroutines.
use go_legs.Prelude.{
  ℕ, ◌+◌, ◌-◌, ◌≤◌, ◌≡◌, refl, ap, ◌∙◌, subst, true, false, Option, none, some, List, [], ◌∷◌, ◌++◌,
  arith, length, length-append, All, Bool-cases, inl, inr,
}
use go_legs.Subscriber.Async.{
  SyncFinished, Phase, waiting, locked, handling, sending, Handler, send_event, go, has_room,
  is_defined, handle_async, take_pending, finish, leave,
}
use go_legs.Subscriber.Async.Steps.{
  Step, announces, goes, cancels, call_locks, call_sets, call_unlocks, receives, other_sends,
  other_starts, other_ends,
}
use go_legs.Subscriber.Async.Counts.{
  bit, total, total-append, total-insert, is_to_take, is_holding, is_astray,
}

module _ {Cid Peer Syncer : Type 0} (same_cid : Discrete Cid) (undef : Cid) where
  -- Between announcements and syncs, at most one goroutine has yet to take the pending CID, exactly
  -- one if there is one to be taken, and at most one goroutine or call holds `latestSyncMu`.
  pub record IsSound (h : Handler Cid Peer Syncer) : Type 0 where
    pub counted : h.async_wg ≡ length h.goroutines + h.others
    pub wanted : total is_to_take h.goroutines ≤ bit (is_defined same_cid undef h.pending_cid)
    pub served :
        bit (is_defined same_cid undef h.pending_cid)
        ≤ total is_to_take h.goroutines + bit h.cancelled
    pub alone : total is_holding h.goroutines + bit h.call_holds ≡ bit h.latest_sync_mu
    pub straight : total (is_astray same_cid undef) h.goroutines ≡ 0
    pub events : All (λ e. is_defined same_cid undef e.cid ≡ true) h.sent

  module _ (h : Handler Cid Peer Syncer) (v : IsSound h) where
    abbrev astray : Phase Cid Syncer → ℕ
    astray = is_astray same_cid undef

    -- The state with something else pending.
    abbrev queued : Cid → Syncer → Handler Cid Peer Syncer
    queued c syncer = record h { pending_cid = c; pending_syncer = some syncer }

    queued-IsSound :
        (c : Cid) (syncer : Syncer)
        → is_defined same_cid undef c ≡ true
        → is_defined same_cid undef h.pending_cid ≡ true
        → IsSound (queued c syncer)
    queued-IsSound c syncer defined full = record {
      counted = v.counted;
      wanted = ground (arith, v.wanted);
      served = ground (arith, v.served);
      alone = v.alone;
      straight = v.straight;
      events = v.events;
    }

    started-IsSound :
        (c : Cid) (syncer : Syncer)
        → h.cancelled ≡ false
        → is_defined same_cid undef c ≡ true
        → is_defined same_cid undef h.pending_cid ≡ false
        → IsSound (record (queued c syncer) {
          goroutines = h.goroutines ++ waiting ∷ [];
          async_wg = h.async_wg + 1;
        })
    unfolding total
    started-IsSound c syncer going defined free = record {
      counted = omega (arith, v.counted, length-append h.goroutines (waiting ∷ []));
      wanted = ground (arith, v.wanted, total-append is_to_take h.goroutines (waiting ∷ []));
      served = ground (arith, v.served, total-append is_to_take h.goroutines (waiting ∷ []));
      alone = ground (arith, v.alone, total-append is_holding h.goroutines (waiting ∷ []));
      straight = ground (arith, v.straight, total-append astray h.goroutines (waiting ∷ []));
      events = v.events;
    }

    handle_async-IsSound :
        (c : Cid) (syncer : Syncer)
        → h.cancelled ≡ false
        → is_defined same_cid undef c ≡ true
        → IsSound (handle_async same_cid undef c syncer h)
    unfolding handle_async
    handle_async-IsSound c syncer going defined =
        elim (Bool-cases (is_defined same_cid undef h.pending_cid)) [
          | inl full ↦ rw full (queued-IsSound c syncer defined full)
          | inr free ↦ rw free (started-IsSound c syncer going defined free)
        ]

    locks-IsSound :
        (xs ys : List (Phase Cid Syncer))
        → h.goroutines ≡ xs ++ waiting ∷ ys
        → h.latest_sync_mu ≡ false
        → IsSound (record h { goroutines = xs ++ locked ∷ ys; latest_sync_mu = true })
    locks-IsSound xs ys e free =
        let was = ap (total is_to_take) e ∙ total-insert is_to_take xs ys waiting in
        let held = ap (total is_holding) e ∙ total-insert is_holding xs ys waiting in
        let bad = ap (total astray) e ∙ total-insert astray xs ys waiting in
        record {
          counted = omega (
            arith,
            v.counted,
            ap length e,
            length-append xs (waiting ∷ ys),
            length-append xs (locked ∷ ys),
          );
          wanted = omega (arith, total-insert is_to_take xs ys locked, was, v.wanted);
          served = omega (arith, total-insert is_to_take xs ys locked, was, v.served);
          alone = ground (arith, total-insert is_holding xs ys locked, held, v.alone, free);
          straight = omega (arith, total-insert astray xs ys locked, bad, v.straight);
          events = v.events;
        }

    -- A goroutine that leaves without having taken what is pending, or with it.
    leave-IsSound :
        (xs ys : List (Phase Cid Syncer)) (p : Phase Cid Syncer) (w : Handler Cid Peer Syncer)
        → h.goroutines ≡ xs ++ p ∷ ys
        → is_holding p ≡ 1
        → is_to_take p ≤ bit h.cancelled
        → w ≡ record h { in_events = w.in_events; sent = w.sent; uncached = w.uncached }
        → All (λ e. is_defined same_cid undef e.cid ≡ true) w.sent
        → IsSound (leave (xs ++ ys) w)
    leave-IsSound xs ys p w e holds gave_up same events =
        let was = ap (total is_to_take) e ∙ total-insert is_to_take xs ys p in
        let held = ap (total is_holding) e ∙ total-insert is_holding xs ys p in
        let bad = ap (total astray) e ∙ total-insert astray xs ys p in
        let size = ap length e ∙ length-append xs (p ∷ ys) in
        let call = ap (λ (k : Handler Cid Peer Syncer). k.call_holds) same in
        let pending = ap (λ (k : Handler Cid Peer Syncer). k.pending_cid) same in
        let stopped = ap (λ (k : Handler Cid Peer Syncer). k.cancelled) same in
        let wg = ap (λ (k : Handler Cid Peer Syncer). k.async_wg) same in
        let rest = ap (λ (k : Handler Cid Peer Syncer). k.others) same in
        record {
          counted = omega (arith, size, wg, rest, v.counted, length-append xs ys);
          wanted = ground (arith, total-append is_to_take xs ys, was, v.wanted, pending);
          served =
              ground
                (arith, total-append is_to_take xs ys, was, v.served, pending, stopped, gave_up);
          alone = ground (arith, total-append is_holding xs ys, held, v.alone, call, holds);
          straight = omega (arith, total-append astray xs ys, bad, v.straight);
          events = events;
        }

    taken-IsSound :
        (xs ys : List (Phase Cid Syncer))
        → h.goroutines ≡ xs ++ locked ∷ ys
        → IsSound (record h {
          goroutines = xs ++ handling h.pending_cid h.pending_syncer ∷ ys;
          pending_cid = undef;
          pending_syncer = none;
        })
    taken-IsSound xs ys e =
        let taken = handling h.pending_cid h.pending_syncer in
        let was = ap (total is_to_take) e ∙ total-insert is_to_take xs ys locked in
        let held = ap (total is_holding) e ∙ total-insert is_holding xs ys locked in
        let bad = ap (total astray) e ∙ total-insert astray xs ys locked in
        let nothing : is_defined same_cid undef undef ≡ false = ground arith in
        let wanted : is_defined same_cid undef h.pending_cid ≡ true =
          ground (arith, was, v.wanted) in
        record {
          counted = omega (
            arith,
            v.counted,
            ap length e,
            length-append xs (locked ∷ ys),
            length-append xs (taken ∷ ys),
          );
          wanted = ground (arith, total-insert is_to_take xs ys taken, was, v.wanted, nothing);
          served = ground (arith, nothing);
          alone = omega (arith, total-insert is_holding xs ys taken, held, v.alone);
          straight = ground (arith, total-insert astray xs ys taken, bad, v.straight, wanted);
          events = v.events;
        }

    take_pending-IsSound :
        (xs ys : List (Phase Cid Syncer))
        → h.goroutines ≡ xs ++ locked ∷ ys
        → IsSound (take_pending same_cid undef xs ys h)
    unfolding take_pending
    take_pending-IsSound xs ys e = elim (Bool-cases h.cancelled) [
      | inl stopped ↦
          let gone : leave (xs ++ ys) h ≡ take_pending same_cid undef xs ys h =
            ground (arith, stopped) in
          subst IsSound gone
            (leave-IsSound xs ys locked h e refl (ground (arith, stopped)) refl v.events)
      | inr going ↦
          let kept : record h {
            goroutines = xs ++ handling h.pending_cid h.pending_syncer ∷ ys;
            pending_cid = undef;
            pending_syncer = none;
          }
              ≡ take_pending same_cid undef xs ys h =
            ground (arith, going) in
          subst IsSound kept (taken-IsSound xs ys e)
    ]

    finish-IsSound :
        (xs ys : List (Phase Cid Syncer)) (c : Cid) (syncer : Option Syncer)
        (result : Option (List Cid))
        → h.goroutines ≡ xs ++ handling c syncer ∷ ys
        → IsSound (finish xs ys c result h)
    unfolding finish
    finish-IsSound xs ys c syncer none e =
        leave-IsSound xs ys (handling c syncer) (record h { uncached = c ∷ h.uncached }) e refl
          (omega arith) refl v.events
    finish-IsSound xs ys c syncer (some synced_cids) e =
        let was = ap (total is_to_take) e ∙ total-insert is_to_take xs ys (handling c syncer) in
        let held = ap (total is_holding) e ∙ total-insert is_holding xs ys (handling c syncer) in
        let bad = ap (total astray) e ∙ total-insert astray xs ys (handling c syncer) in
        record {
          counted = omega (
            arith,
            v.counted,
            ap length e,
            length-append xs (handling c syncer ∷ ys),
            length-append xs (sending c synced_cids ∷ ys),
          );
          wanted =
              omega (arith, total-insert is_to_take xs ys (sending c synced_cids), was, v.wanted);
          served =
              omega (arith, total-insert is_to_take xs ys (sending c synced_cids), was, v.served);
          alone =
              omega (arith, total-insert is_holding xs ys (sending c synced_cids), held, v.alone);
          straight =
              omega (arith, total-insert astray xs ys (sending c synced_cids), bad, v.straight);
          events = v.events;
        }

    send_event-IsSound :
        (xs ys : List (Phase Cid Syncer)) (c : Cid) (synced_cids : List Cid)
        → h.goroutines ≡ xs ++ sending c synced_cids ∷ ys
        → IsSound (send_event xs ys c synced_cids h)
    unfolding send_event
    send_event-IsSound xs ys c synced_cids e =
        let bad = ap (total astray) e ∙ total-insert astray xs ys (sending c synced_cids) in
        let event : SyncFinished Cid Peer = record {
          cid = c;
          peer = h.peer;
          synced_cids = synced_cids;
        } in
        leave-IsSound xs ys (sending c synced_cids)
          (record h { in_events = h.in_events ++ event ∷ []; sent = event ∷ h.sent }) e refl
          (omega arith) refl (ground (arith, bad, v.straight), v.events)

    go-IsSound :
        (result : Cid → Option Syncer → Option (List Cid)) (xs ys : List (Phase Cid Syncer))
        (p : Phase Cid Syncer) (t : Handler Cid Peer Syncer)
        → h.goroutines ≡ xs ++ p ∷ ys
        → go same_cid undef result xs p ys h ≡ some t
        → IsSound t
    unfolding go
    go-IsSound result xs ys waiting t e went = elim (Bool-cases h.latest_sync_mu) [
      | inl held ↦ absurd (ground (arith, held))
      | inr free ↦ subst IsSound (ground (arith, free)) (locks-IsSound xs ys e free)
    ]
    go-IsSound result xs ys locked t e went =
        subst IsSound (ground arith) (take_pending-IsSound xs ys e)
    go-IsSound result xs ys (handling c syncer) t e went =
        subst IsSound (ground arith) (finish-IsSound xs ys c syncer (result c syncer) e)
    go-IsSound result xs ys (sending c l) t e went = elim (Bool-cases (has_room h)) [
      | inl room ↦ subst IsSound (ground (arith, room)) (send_event-IsSound xs ys c l e)
      | inr full ↦ absurd (ground (arith, full))
    ]

    -- What the invariant does not speak of.
    beside-IsSound :
        (latest : Option Cid) (events : List (SyncFinished Cid Peer)) (n m : ℕ)
        → n ≡ length h.goroutines + m
        → IsSound (record h { latest_sync = latest; in_events = events; async_wg = n; others = m })
    beside-IsSound latest events n m counted = record {
      counted = counted;
      wanted = v.wanted;
      served = v.served;
      alone = v.alone;
      straight = v.straight;
      events = v.events;
    }

    -- Every step keeps the invariant, if what it announces is defined.
    pub Step-IsSound :
        {o : Option Cid} {s : Handler Cid Peer Syncer}
        → Step same_cid undef h o s
        → ((c : Cid) → o ≡ some c → is_defined same_cid undef c ≡ true)
        → IsSound s
    Step-IsSound (announces c syncer going) defined =
        handle_async-IsSound c syncer going (defined c refl)
    Step-IsSound (goes result xs ys p t e went) defined = go-IsSound result xs ys p t e went
    Step-IsSound cancels defined = record {
      counted = v.counted;
      wanted = v.wanted;
      served = ground arith;
      alone = v.alone;
      straight = v.straight;
      events = v.events;
    }
    Step-IsSound (call_locks free) defined = record {
      counted = v.counted;
      wanted = v.wanted;
      served = v.served;
      alone = ground (arith, v.alone, free);
      straight = v.straight;
      events = v.events;
    }
    Step-IsSound (call_sets c held) defined =
        beside-IsSound (some c) h.in_events h.async_wg h.others v.counted
    Step-IsSound (call_unlocks held) defined = record {
      counted = v.counted;
      wanted = v.wanted;
      served = v.served;
      alone = ground (arith, v.alone, held);
      straight = v.straight;
      events = v.events;
    }
    Step-IsSound (receives event rest e) defined =
        beside-IsSound h.latest_sync rest h.async_wg h.others v.counted
    Step-IsSound (other_sends event room) defined =
        beside-IsSound h.latest_sync (h.in_events ++ event ∷ []) h.async_wg h.others v.counted
    Step-IsSound other_starts defined =
        beside-IsSound h.latest_sync h.in_events (h.async_wg + 1) (h.others + 1)
          (omega (arith, v.counted))
    Step-IsSound (other_ends some_other) defined =
        beside-IsSound h.latest_sync h.in_events (h.async_wg - 1) (h.others - 1)
          (omega (arith, v.counted, some_other))
