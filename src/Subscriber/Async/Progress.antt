-- ===== src/Subscriber/Async/Progress.antt =====
-- subscriber.go, `handleAsync`: when the goroutines of a handler go on.
use go_legs.Prelude.{
  ℕ, ◌≤◌, ◌<◌, ◌≡◌, refl, ap, ◌∙◌, true, false, Option, some, List, [], ◌∷◌, ◌++◌, arith, length,
  Bool-cases, Option-cases, inl, inr, ◌⊎◌, List-cases, All,
}
use go_legs.Subscriber.Async.{
  SyncFinished, Phase, waiting, locked, handling, sending, Handler, is_defined, take_pending,
  finish, send_event, has_room, go,
}
use go_legs.Subscriber.Async.Steps.{Run}
use go_legs.Subscriber.Async.Counts.{
  total, total-append, total-insert, is_to_take, is_holding, steps_left,
}
use go_legs.Subscriber.Async.Sound.{IsSound}
use go_legs.Subscriber.Async.Runs.{IsDefined, new_handler, new_handler-IsSound}

module _ {Cid Syncer : Type 0} where
  -- The goroutine that holds the lock.
  abbrev HasHolder : List (Phase Cid Syncer) → Type 0
  HasHolder ps =
      (xs ys : List (Phase Cid Syncer)) × (p : Phase Cid Syncer) × (ps ≡ xs ++ p ∷ ys)
      × (is_holding p ≡ 1)

  holder-HasHolder : (ps : List (Phase Cid Syncer)) → 1 ≤ total is_holding ps → HasHolder ps
  unfolding total
  holder-HasHolder [] h = absurd (omega (arith, h))
  holder-HasHolder (locked ∷ ps) h = ([], ps, locked, refl, refl)
  holder-HasHolder (handling c s ∷ ps) h = ([], ps, handling c s, refl, refl)
  holder-HasHolder (sending c l ∷ ps) h = ([], ps, sending c l, refl, refl)
  holder-HasHolder (waiting ∷ ps) h =
      let (xs, ys, p, e, holds) = holder-HasHolder ps (omega (arith, h)) in
      (waiting ∷ xs, ys, p, ap (λ l. waiting ∷ l) e, holds)

  -- While no one holds the lock, every goroutine waits for it.
  no_holder :
      (p : Phase Cid Syncer) (ps : List (Phase Cid Syncer))
      → total is_holding (p ∷ ps) ≡ 0
      → p ≡ waiting
  unfolding total
  no_holder waiting ps h = refl
  no_holder locked ps h = absurd (omega (arith, h))
  no_holder (handling c s) ps h = absurd (omega (arith, h))
  no_holder (sending c l) ps h = absurd (omega (arith, h))

module _ {Cid Peer Syncer : Type 0} (same_cid : Discrete Cid) (undef : Cid) where
  nothing_pending :
      (s : Handler Cid Peer Syncer)
      → IsSound same_cid undef s
      → s.goroutines ≡ []
      → (is_defined same_cid undef s.pending_cid ≡ false) ⊎ (s.cancelled ≡ true)
  unfolding total
  nothing_pending s v empty = elim (Bool-cases s.cancelled) [
    | inl stopped ↦ inr stopped
    | inr going ↦
        let none_left : total is_to_take s.goroutines ≡ 0 = ap (total is_to_take) empty in
        inl (ground (arith, v.served, none_left, going))
  ]

  -- A goroutine can go on, whatever `handle` comes to, and then has fewer steps left.
  abbrev pub Moves : (Cid → Option Syncer → Option (List Cid)) → Handler Cid Peer Syncer → Type 0
  Moves result s =
      (xs ys : List (Phase Cid Syncer)) × (p : Phase Cid Syncer) × (t : Handler Cid Peer Syncer)
      × (s.goroutines ≡ xs ++ p ∷ ys)
      × (go same_cid undef result xs p ys s ≡ some t)
      × (total steps_left t.goroutines < total steps_left s.goroutines)

  -- The goroutine that holds `latestSyncMu` waits for room in `inEvents`.
  abbrev pub WaitsToSend : Handler Cid Peer Syncer → Type 0
  WaitsToSend s =
      (xs ys : List (Phase Cid Syncer)) × (c : Cid) × (l : List Cid) × (s.goroutines
        ≡ xs ++ sending c l ∷ ys)
      × (1 ≤ length s.in_events)

  go-Moves :
      (s t : Handler Cid Peer Syncer) (result : Cid → Option Syncer → Option (List Cid))
      (xs ys : List (Phase Cid Syncer)) (p : Phase Cid Syncer)
      → s.goroutines ≡ xs ++ p ∷ ys
      → go same_cid undef result xs p ys s ≡ some t
      → total steps_left t.goroutines < total steps_left s.goroutines
  unfolding go take_pending finish send_event
  go-Moves s t result xs ys waiting e went =
      let before = ap (total steps_left) e ∙ total-insert steps_left xs ys waiting in
      elim (Bool-cases s.latest_sync_mu) [
        | inl held ↦ absurd (ground (arith, held))
        | inr free ↦ ground (arith, free, before, total-insert steps_left xs ys locked)
      ]
  go-Moves s t result xs ys locked e went =
      let before = ap (total steps_left) e ∙ total-insert steps_left xs ys locked in
      let taken = handling s.pending_cid s.pending_syncer in
      elim (Bool-cases s.cancelled) [
        | inl stopped ↦ ground (arith, stopped, before, total-append steps_left xs ys)
        | inr going ↦ ground (arith, going, before, total-insert steps_left xs ys taken)
      ]
  go-Moves s t result xs ys (handling c r) e went =
      let before = ap (total steps_left) e ∙ total-insert steps_left xs ys (handling c r) in
      elim (Option-cases (result c r)) [
        | inl failed ↦ ground (arith, failed, before, total-append steps_left xs ys)
        | inr (l, synced) ↦
            ground (arith, synced, before, total-insert steps_left xs ys (sending c l))
      ]
  go-Moves s t result xs ys (sending c l) e went =
      let before = ap (total steps_left) e ∙ total-insert steps_left xs ys (sending c l) in
      elim (Bool-cases (has_room s)) [
        | inl room ↦ ground (arith, room, before, total-append steps_left xs ys)
        | inr full ↦ absurd (ground (arith, full))
      ]

  went-Moves :
      (s t : Handler Cid Peer Syncer) (result : Cid → Option Syncer → Option (List Cid))
      (xs ys : List (Phase Cid Syncer)) (p : Phase Cid Syncer)
      → s.goroutines ≡ xs ++ p ∷ ys
      → go same_cid undef result xs p ys s ≡ some t
      → Moves result s
  went-Moves s t result xs ys p e went = (xs, ys, p, t, e, went, go-Moves s t result xs ys p e went)

  -- The goroutine that holds the lock goes on, or waits to send.
  holder-Moves :
      (s : Handler Cid Peer Syncer) (result : Cid → Option Syncer → Option (List Cid))
      (xs ys : List (Phase Cid Syncer)) (p : Phase Cid Syncer)
      → s.goroutines ≡ xs ++ p ∷ ys
      → is_holding p ≡ 1
      → Moves result s ⊎ WaitsToSend s
  unfolding go
  holder-Moves s result xs ys waiting e holds = absurd (omega arith)
  holder-Moves s result xs ys locked e holds =
      inl (went-Moves s (take_pending same_cid undef xs ys s) result xs ys locked e refl)
  holder-Moves s result xs ys (handling c r) e holds =
      inl (went-Moves s (finish xs ys c (result c r) s) result xs ys (handling c r) e refl)
  holder-Moves s result xs ys (sending c l) e holds = elim (Bool-cases (has_room s)) [
    | inl room ↦
        inl (
          went-Moves s (send_event xs ys c l s) result xs ys (sending c l) e (ground (arith, room)))
    | inr full ↦ inr (xs, ys, c, l, e, ground (arith, full))
  ]

  -- After any run of a new handler in which every CID that is announced is defined, while no call holds
  -- `latestSyncMu`: some goroutine can go on, whatever `handle` comes to, and then has fewer steps left;
  -- or the one that holds `latestSyncMu` waits until `inEvents`, which is full, has room; or there is
  -- none, and then no CID is pending or the context is done.
  pub new_handler-Moves :
      (peer : Peer) (latest : Option Cid) (events : List (SyncFinished Cid Peer)) (others : ℕ)
      (cs : List Cid) (s : Handler Cid Peer Syncer)
      (result : Cid → Option Syncer → Option (List Cid))
      → Run same_cid undef (new_handler same_cid undef peer latest events others) cs s
      → All (IsDefined same_cid undef) cs
      → s.call_holds ≡ false
      → Moves result s
        ⊎ WaitsToSend s
        ⊎ ((s.goroutines ≡ [])
            × ((is_defined same_cid undef s.pending_cid ≡ false) ⊎ (s.cancelled ≡ true)))
  unfolding go
  new_handler-Moves peer latest events others cs s result run all idle =
      let v = new_handler-IsSound same_cid undef peer latest events others cs s run all in
      elim (Bool-cases s.latest_sync_mu) [
        | inl held ↦
            let (xs, ys, p, e, holds) =
              holder-HasHolder s.goroutines (ground (arith, v.alone, held, idle)) in
            elim (holder-Moves s result xs ys p e holds) [
              | inl moves ↦ inl moves
              | inr waits ↦ inr (inl waits)
            ]
        | inr free ↦ elim (List-cases s.goroutines) [
          | inl empty ↦ inr (inr (empty, nothing_pending s v empty))
          | inr (p, ps, e) ↦
              let none_holds : total is_holding (p ∷ ps) ≡ 0 =
                ground (arith, v.alone, free, ap (total is_holding) e) in
              let first : p ≡ waiting = no_holder p ps none_holds in
              inl (
                went-Moves s (record s { goroutines = locked ∷ ps; latest_sync_mu = true }) result
                  [] ps waiting (e ∙ ap (λ q. q ∷ ps) first) (ground (arith, free)))
        ]
      ]
