-- ===== src/Dtsync/Syncer/Returns.antt =====
-- dtsync/syncer.go: that the loop of `Sync` ends, and what it leaves.
use go_legs.Prelude.{
  ℕ, zero, suc, ◌<◌, ◌≡◌, refl, false, Option, none, some, List, ◌∷◌, arith, returns, inl, inr,
  Option-cases, Bool-cases,
}
use go_legs.Dtsync.Waits.{notify_on_sync_done}
use go_legs.Dtsync.Waits.Runs.{IsSound, notify-IsSound}
use go_legs.Dtsync.Transfers.{
  DoneError, plain_error, rate_limit_error, SyncKey, DtSync, signal_done,
}
use go_legs.Dtsync.Syncer.{
  SyncerError, cannot_open, transfer_error, context_error, DtSyncer, wait_done, sync_loop,
}
use go_legs.Dtsync.Syncer.Ends.{signal-leaves}
use go_legs.Dtsync.Syncer.Waiting.{
  IsPartner, IsAlone, opened, opened-listed, opened-others, round-WaitEnds,
}

module _ {Cid Peer Limiter World Node Block : Type 0}
    (syncer : DtSyncer Cid Peer Limiter World Node Block) {rank : Cid → ℕ}
    (partner : IsPartner syncer rank) where
  -- What the loop returns and leaves.
  abbrev pub LoopEnds : ℕ → Cid → DtSync Cid Peer Limiter World → Type 0
  LoopEnds fuel c s =
      (e : Option (SyncerError Cid)) × (t : DtSync Cid Peer Limiter World) × (sync_loop syncer fuel
          c s
        ≡ some (returns e t))
      × IsSound syncer.same_key t.waits
      × IsAlone syncer t

  open_error-LoopEnds :
      (fuel : ℕ) (c : Cid) (s : DtSync Cid Peer Limiter World) (text : List ℕ)
      → IsSound syncer.same_key s.waits
      → IsAlone syncer s
      → syncer.open_error c (opened syncer c s) ≡ some text
      → LoopEnds (suc fuel) c s
  unfolding sync_loop notify_on_sync_done
  open_error-LoopEnds fuel c s text h alone refused =
      let key : SyncKey Cid Peer = (c, syncer.peer_id) in
      let h₁ = notify-IsSound syncer.same_key s.waits key h (alone c) in
      let (found, w, ran, sound, done, gone, still, sent) =
        signal-leaves syncer.same_key (opened syncer c s).waits key s.waits.next_done none h₁
          (inr (opened-listed syncer c s)) in
      (
        some (cannot_open text),
        record s { waits = w },
        rw (sync_loop, refused, signal_done, ran) refl,
        sound,
        λ d. elim (syncer.same_key key (d, syncer.peer_id)) [
          | yes e ↦ rw (← e) gone
          | no ne ↦ still (d, syncer.peer_id) (opened-others syncer c d s alone ne)
        ],
      )

  -- The rest of a round, from what its wait returned, where the next rounds end.
  abbrev RestEnds : ℕ → Cid → DtSync Cid Peer Limiter World → Option (DoneError Cid) → Type 0
  RestEnds fuel c s e =
      (t : DtSync Cid Peer Limiter World)
      → syncer.open_error c (opened syncer c s) ≡ none
      → wait_done syncer c s.waits.next_done (syncer.meanwhile c (opened syncer c s)) ≡ returns e t
      → IsSound syncer.same_key t.waits
      → IsAlone syncer t
      → ((d : Cid) (msg : List ℕ)
          → e ≡ some (rate_limit_error msg d)
          → (rest : List (DoneError Cid)) × ((syncer.meanwhile c (opened syncer c s)).waits.sent
                s.waits.next_done
              ≡ rate_limit_error msg d ∷ rest))
      → LoopEnds (suc fuel) c s

  -- After a rate limit the loop goes on from the block at which it stopped.
  sync_loop-limited :
      (fuel : ℕ) (c d : Cid) (msg : List ℕ) (l : Limiter) (s t v : DtSync Cid Peer Limiter World)
      (e : Option (SyncerError Cid))
      → syncer.open_error c (opened syncer c s) ≡ none
      → wait_done syncer c s.waits.next_done (syncer.meanwhile c (opened syncer c s))
        ≡ returns (some (rate_limit_error msg d)) t
      → syncer.rate_limiter ≡ some l
      → syncer.is_wait_cancelled c t ≡ false
      → sync_loop syncer fuel d (record t { world = (syncer.allow l t.world).1 })
        ≡ some (returns e v)
      → sync_loop syncer (suc fuel) c s ≡ some (returns e v)
  unfolding sync_loop notify_on_sync_done
  sync_loop-limited fuel c d msg l s t v e accepted waited has_limiter going ran =
      rw (sync_loop, accepted, waited, has_limiter, going, ran) refl

  round-RestEnds :
      (fuel : ℕ) (c : Cid) (s : DtSync Cid Peer Limiter World) (e : Option (DoneError Cid))
      → rank c < suc fuel
      → IsSound syncer.same_key s.waits
      → IsAlone syncer s
      → ((d : Cid) (u : DtSync Cid Peer Limiter World)
          → rank d < fuel
          → IsSound syncer.same_key u.waits
          → IsAlone syncer u
          → LoopEnds fuel d u)
      → RestEnds fuel c s e
  unfolding sync_loop notify_on_sync_done
  round-RestEnds fuel c s none lt h alone next t accepted waited h' alone' from =
      (none, t, rw (sync_loop, accepted, waited) refl, h', alone')
  round-RestEnds fuel c s (some (plain_error text)) lt h alone next t accepted waited h' alone'
        from =
      (
        some (transfer_error (plain_error text)),
        t,
        rw (sync_loop, accepted, waited) refl,
        h',
        alone',
      )
  round-RestEnds fuel c s (some (rate_limit_error msg d)) lt h alone next t accepted waited h'
        alone' from =
      let (rest, full) = from d msg refl in
      let h₁ = notify-IsSound syncer.same_key s.waits (c, syncer.peer_id) h (alone c) in
      let (lower, l, has_limiter) =
        partner.stops c d s.waits.next_done msg rest (opened syncer c s) h₁
          (opened-listed syncer c s) full in
      elim (Bool-cases (syncer.is_wait_cancelled c t)) [
        | inl stopped ↦ (
          some context_error,
          t,
          rw (sync_loop, accepted, waited, has_limiter, stopped) refl,
          h',
          alone',
        )
        | inr going ↦
            let u : DtSync Cid Peer Limiter World = record t {
              world = (syncer.allow l t.world).1;
            } in
            let (e, v, ran, sound, still) = next d u (omega arith) h' alone' in
            (
              e,
              v,
              sync_loop-limited fuel c d msg l s t v e accepted waited has_limiter going ran,
              sound,
              still,
            )
      ]

  -- The loop ends after at most as many rounds as there are ranks up to that of its CID.
  pub sync_loop-LoopEnds :
      (fuel : ℕ) (c : Cid) (s : DtSync Cid Peer Limiter World)
      → rank c < fuel
      → IsSound syncer.same_key s.waits
      → IsAlone syncer s
      → LoopEnds fuel c s
  sync_loop-LoopEnds zero c s lt h alone = absurd (omega arith)
  sync_loop-LoopEnds (suc fuel) c s lt h alone =
      elim (Option-cases (syncer.open_error c (opened syncer c s))) [
        | inr (text, refused) ↦ open_error-LoopEnds fuel c s text h alone refused
        | inl accepted ↦
            let (e, t, waited, h', alone', from) = round-WaitEnds syncer partner c s h alone in
            round-RestEnds fuel c s e lt h alone (sync_loop-LoopEnds fuel) t accepted waited h'
              alone' from
      ]
