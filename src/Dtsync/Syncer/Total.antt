-- ===== src/Dtsync/Syncer/Total.antt =====
-- dtsync/syncer.go: `Sync` returns.
use go_legs.Prelude.{
  ℕ, ◌<◌, ◌≡◌, refl, Option, none, some, arith, returns, inl, inr, Option-cases, List,
}
use go_legs.Dtsync.Waits.Runs.{IsSound}
use go_legs.Dtsync.Waits.Wakes.{signal-Signals}
use go_legs.Dtsync.Transfers.{
  DtSync, signal_done, set_rate_limiter, clear_rate_limiter, signal_locally_found_cids,
}
use go_legs.Dtsync.Syncer.{SyncerError, DtSyncer, has, sync_pull, cleared, limited}
use go_legs.Dtsync.Syncer.Waiting.{IsPartner, channel_of, IsAlone}
use go_legs.Dtsync.Syncer.Returns.{sync_loop-LoopEnds}

module _ {Cid Peer Limiter World Node Block : Type 0}
    (syncer : DtSyncer Cid Peer Limiter World Node Block) where
  -- A limiter of the syncer is no longer that of its publisher.
  abbrev pub IsCleared : Option Limiter → DtSync Cid Peer Limiter World → Type 0
  IsCleared none t = Unit
  IsCleared (some l) t = t.rate_limiters syncer.peer_id ≡ none

  cleared-IsCleared :
      (o : Option Limiter) (s : DtSync Cid Peer Limiter World)
      → syncer.rate_limiter ≡ o
      → (IsCleared o (cleared syncer s))
        × ((cleared syncer s).waits ≡ s.waits)
        × ((limited syncer s).waits ≡ s.waits)
  unfolding clear_rate_limiter set_rate_limiter
  cleared-IsCleared none s e = (tt, ground (arith, e), ground (arith, e))
  cleared-IsCleared (some l) s e = (ground (arith, e), ground (arith, e), ground (arith, e))

  waits-signal_locally_found_cids :
      (p : Peer) (cids : List Cid) (s : DtSync Cid Peer Limiter World)
      → (signal_locally_found_cids syncer.has_hook p cids s).waits ≡ s.waits
  unfolding signal_locally_found_cids
  waits-signal_locally_found_cids p cids s = ground arith

  -- Let the others that share the `Sync` be as IsPartner describes, the waits sound, no sync of the
  -- publisher listed, and the fuel more than the rank of the CID. Then `Sync` returns, and does not
  -- run out of fuel, wait for ever or panic; afterwards the waits are sound, no sync of the publisher is
  -- listed, and if it has a limiter, that is no longer set for the publisher.
  pub sync_pull-returns :
      {rank : Cid → ℕ}
      → IsPartner syncer rank
      → (fuel : ℕ) (c : Cid) (sel : Node) (s : DtSync Cid Peer Limiter World) → rank c < fuel
      → IsSound syncer.same_key s.waits
      → IsAlone syncer s
      → (e : Option (SyncerError Cid)) × (t : DtSync Cid Peer Limiter World) × (sync_pull syncer
            fuel c sel s
          ≡ some (returns e t))
        × IsSound syncer.same_key t.waits
        × IsAlone syncer t
        × IsCleared syncer.rate_limiter t
  unfolding sync_pull
  sync_pull-returns partner fuel c sel s lt h alone =
      let (_, _, same) = cleared-IsCleared syncer.rate_limiter s refl in
      elim (Option-cases (has syncer c sel)) [
        | inl missing ↦
            let (e, t, ran, sound, still) =
              sync_loop-LoopEnds syncer partner fuel c (limited syncer s) lt (rw same h)
                (λ d. rw same (alone d)) in
            let (clear, same', _) = cleared-IsCleared syncer.rate_limiter t refl in
            (
              e,
              cleared syncer t,
              rw (sync_pull, missing, ran) refl,
              rw same' sound,
              λ d. rw same' (still d),
              clear,
            )
        | inr (cids, stored) ↦
            let u =
              signal_locally_found_cids syncer.has_hook syncer.peer_id cids (limited syncer s) in
            let same' = waits-signal_locally_found_cids syncer.peer_id cids (limited syncer s) in
            let absent : channel_of syncer c u ≡ none = rw (same', same) (alone c) in
            let ran =
              signal-Signals syncer.same_key u.waits (c, syncer.peer_id) none none
                (rw (same', same) h) absent in
            let (clear, same'', _) = cleared-IsCleared syncer.rate_limiter u refl in
            (
              none,
              cleared syncer u,
              rw (sync_pull, stored, signal_done, ran) refl,
              rw (same'', same', same) h,
              λ d. rw (same'', same', same) (alone d),
              clear,
            )
      ]
