-- ===== src/Subscriber/Async/Runs.antt =====
-- subscriber.go, `handleAsync`: what holds of a handler after any run.
use go_legs.Prelude.{
  ℕ, ◌+◌, ◌≤◌, ◌≡◌, refl, ap, sym, ◌∙◌, true, false, Option, none, some, List, [], ◌∷◌, ◌++◌, arith,
  length, Bool-cases, Option-cases, inl, inr, ◌⊎◌, All,
}
use go_legs.Subscriber.Async.{
  SyncFinished, Phase, waiting, locked, handling, sending, Handler, is_defined, handle_async,
  take_pending, finish, send_event, has_room, go,
}
use go_legs.Subscriber.Async.Steps.{
  Step, announces, goes, cancels, call_locks, call_sets, call_unlocks, receives, other_sends,
  other_starts, other_ends, Run, here, more, noted,
}
use go_legs.Subscriber.Async.Counts.{total, is_to_take, is_holding, total-insert}
use go_legs.Subscriber.Async.Sound.{IsSound, Step-IsSound}

module _ {Cid Syncer : Type 0} where
  -- Every goroutine has something to take or holds the lock.
  length-le-total :
      (ps : List (Phase Cid Syncer)) → length ps ≤ total is_to_take ps + total is_holding ps
  unfolding total
  length-le-total [] = omega arith
  length-le-total (waiting ∷ ps) = omega (arith, length-le-total ps)
  length-le-total (locked ∷ ps) = omega (arith, length-le-total ps)
  length-le-total (handling c s ∷ ps) = omega (arith, length-le-total ps)
  length-le-total (sending c l ∷ ps) = omega (arith, length-le-total ps)

-- Where what is pending behind a step comes from.
abbrev Pending : {Cid : Type 0} → Cid → Option Cid → Cid → Cid → Type 0
Pending undef o before after = (after ≡ undef) ⊎ ((after ≡ before) × (o ≡ none)) ⊎ (o ≡ some after)

module _ {Cid : Type 0} (same_cid : Discrete Cid) (undef : Cid) where
  abbrev pub IsDefined : Cid → Type 0
  IsDefined c = is_defined same_cid undef c ≡ true

  All-noted :
      (o : Option Cid) (cs : List Cid)
      → All IsDefined (noted o cs)
      → All IsDefined cs × ((c : Cid) → o ≡ some c → IsDefined c)
  All-noted none cs all = (all, λ c e. cc)
  All-noted (some d) cs all = (all.1, λ c e. ground (arith, all.0, e))

module _ {Cid Peer Syncer : Type 0} (same_cid : Discrete Cid) (undef : Cid) where
  -- A handler as `getOrCreateHandler` makes it, with the events in `inEvents` and how many goroutines
  -- of other handlers there are.
  abbrev pub new_handler :
      Peer → Option Cid → List (SyncFinished Cid Peer) → ℕ → Handler Cid Peer Syncer
  new_handler peer latest events others = record {
    peer = peer;
    pending_cid = undef;
    pending_syncer = none;
    goroutines = [];
    latest_sync_mu = false;
    call_holds = false;
    async_wg = others;
    others = others;
    cancelled = false;
    latest_sync = latest;
    in_events = events;
    sent = [];
    uncached = [];
  }

  Run-IsSound :
      {h : Handler Cid Peer Syncer} {cs : List Cid} {s : Handler Cid Peer Syncer}
      → Run same_cid undef h cs s
      → All (IsDefined same_cid undef) cs
      → IsSound same_cid undef h
      → IsSound same_cid undef s
  Run-IsSound here all v = v
  Run-IsSound (more {cs = cs} {o = o} {s = s} run step) all v =
      let (before, now) = All-noted same_cid undef o cs all in
      Step-IsSound same_cid undef s (Run-IsSound run before v) step now

  fresh-IsSound :
      (peer : Peer) (latest : Option Cid) (events : List (SyncFinished Cid Peer)) (others : ℕ)
      → IsSound same_cid undef (new_handler peer latest events others)
  unfolding total
  fresh-IsSound peer latest events others = record {
    counted = omega arith;
    wanted = omega arith;
    served = ground arith;
    alone = refl;
    straight = refl;
    events = tt;
  }

  -- After any run of a new handler in which every CID that is announced is defined, `asyncWG` counts
  -- its goroutines and those of the other handlers; at most one of its goroutines is yet to take the
  -- pending CID, and one is if there is one and the context is not done; at most one of them or of the
  -- calls holds `latestSyncMu`; none syncs `cid.Undef`, and no event that they sent has it.
  pub new_handler-IsSound :
      (peer : Peer) (latest : Option Cid) (events : List (SyncFinished Cid Peer)) (others : ℕ)
      (cs : List Cid) (s : Handler Cid Peer Syncer)
      → Run same_cid undef (new_handler peer latest events others) cs s
      → All (IsDefined same_cid undef) cs
      → IsSound same_cid undef s
  new_handler-IsSound peer latest events others cs s run all =
      Run-IsSound run all (fresh-IsSound peer latest events others)

  -- After any run of a new handler in which every CID that is announced is defined, it has at most two
  -- goroutines.
  pub new_handler-goroutines :
      (peer : Peer) (latest : Option Cid) (events : List (SyncFinished Cid Peer)) (others : ℕ)
      (cs : List Cid) (s : Handler Cid Peer Syncer)
      → Run same_cid undef (new_handler peer latest events others) cs s
      → All (IsDefined same_cid undef) cs
      → length s.goroutines ≤ 2
  new_handler-goroutines peer latest events others cs s run all =
      let v = new_handler-IsSound peer latest events others cs s run all in
      ground (arith, length-le-total s.goroutines, v.wanted, v.alone)

  go-Pending :
      (h t : Handler Cid Peer Syncer) (result : Cid → Option Syncer → Option (List Cid))
      (xs ys : List (Phase Cid Syncer)) (p : Phase Cid Syncer)
      → go same_cid undef result xs p ys h ≡ some t
      → Pending undef none h.pending_cid t.pending_cid
  unfolding go take_pending finish send_event
  go-Pending h t result xs ys waiting went = elim (Bool-cases h.latest_sync_mu) [
    | inl held ↦ absurd (ground (arith, held))
    | inr free ↦ inr (inl (ground (arith, free), refl))
  ]
  go-Pending h t result xs ys locked went = elim (Bool-cases h.cancelled) [
    | inl stopped ↦ inr (inl (ground (arith, stopped), refl))
    | inr going ↦ inl (ground (arith, going))
  ]
  go-Pending h t result xs ys (handling c s) went = elim (Option-cases (result c s)) [
    | inl failed ↦ inr (inl (ground (arith, failed), refl))
    | inr (l, synced) ↦ inr (inl (ground (arith, synced), refl))
  ]
  go-Pending h t result xs ys (sending c l) went = elim (Bool-cases (has_room h)) [
    | inl room ↦ inr (inl (ground (arith, room), refl))
    | inr full ↦ absurd (ground (arith, full))
  ]

  Step-Pending :
      {h s : Handler Cid Peer Syncer} {o : Option Cid}
      → Step same_cid undef h o s
      → Pending undef o h.pending_cid s.pending_cid
  Step-Pending {h} (announces c syncer going) = inr (inr (unfold handle_async in ground arith))
  Step-Pending {h} {s} (goes result xs ys p t e went) = go-Pending h s result xs ys p went
  Step-Pending cancels = inr (inl (refl, refl))
  Step-Pending (call_locks free) = inr (inl (refl, refl))
  Step-Pending (call_sets c held) = inr (inl (refl, refl))
  Step-Pending (call_unlocks held) = inr (inl (refl, refl))
  Step-Pending (receives event rest e) = inr (inl (refl, refl))
  Step-Pending (other_sends event room) = inr (inl (refl, refl))
  Step-Pending other_starts = inr (inl (refl, refl))
  Step-Pending (other_ends some_other) = inr (inl (refl, refl))

  Run-Pending :
      {h : Handler Cid Peer Syncer} {cs : List Cid} {s : Handler Cid Peer Syncer}
      → Run same_cid undef h cs s
      → h.pending_cid ≡ undef
      → (s.pending_cid ≡ undef) ⊎ ((rest : List Cid) × (cs ≡ s.pending_cid ∷ rest))
  Run-Pending here e = inl e
  Run-Pending (more {cs = cs} {o = o} {s = s} {t = t} run step) e = elim (Step-Pending step) [
    | inl empty ↦ inl empty
    | inr (inr fresh) ↦ inr (cs, ap (λ p. noted p cs) fresh)
    | inr (inl (same, quiet)) ↦ elim (Run-Pending run e) [
      | inl empty ↦ inl (same ∙ empty)
      | inr (rest, latest) ↦
          inr (rest, ap (λ p. noted p cs) quiet ∙ latest ∙ ap (λ c. c ∷ rest) (sym same))
    ]
  ]

  -- After any run of a new handler in which every CID that is announced is defined, a goroutine that
  -- takes the pending CID while the context is not done takes the one announced last, whatever was
  -- announced before it, and leaves none pending.
  pub taken-latest :
      (peer : Peer) (latest : Option Cid) (events : List (SyncFinished Cid Peer)) (others : ℕ)
      (cs : List Cid) (s : Handler Cid Peer Syncer) (xs ys : List (Phase Cid Syncer))
      → Run same_cid undef (new_handler peer latest events others) cs s
      → All (IsDefined same_cid undef) cs
      → s.goroutines ≡ xs ++ locked ∷ ys
      → s.cancelled ≡ false
      → (c : Cid) × (rest : List Cid) × (cs ≡ c ∷ rest)
        × ((take_pending same_cid undef xs ys s).goroutines
            ≡ xs ++ handling c s.pending_syncer ∷ ys)
        × ((take_pending same_cid undef xs ys s).pending_cid ≡ undef)
  unfolding take_pending
  taken-latest peer latest events others cs s xs ys run all e going =
      let v = new_handler-IsSound peer latest events others cs s run all in
      let was = ap (total is_to_take) e ∙ total-insert is_to_take xs ys locked in
      let wanted : is_defined same_cid undef s.pending_cid ≡ true = ground (arith, was, v.wanted) in
      elim (Run-Pending run refl) [
        | inl empty ↦ absurd (ground (arith, empty, wanted))
        | inr (rest, last) ↦
            (s.pending_cid, rest, last, ground (arith, going), ground (arith, going))
      ]
