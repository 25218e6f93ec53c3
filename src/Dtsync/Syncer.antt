-- ===== src/Dtsync/Syncer.antt =====
-- dtsync/syncer.go: one sync with a publisher. What other goroutines do until the wait for a transfer
-- ends is a function of the state, and so is what ends it. How long a rate limited sync waits is left
-- out.
pub mod Ends
pub mod Waiting
pub mod Returns
pub mod Total
mod Tests
use go_legs.Prelude.{
  ℕ, zero, suc, ◌≡◌, Bool, true, false, if◌then◌else◌, Option, none, some, List, [], ◌∷◌, Outcome,
  returns, blocks, panics, and_then,
}
use go_legs.Traversal.{Walk, walk_stored}
use go_legs.Dtsync.Waits.{Waits, notify_on_sync_done, receive}
use go_legs.Dtsync.Transfers.{
  DoneError, plain_error, rate_limit_error, SyncKey, DtSync, on_waits, signal_done,
  set_rate_limiter, clear_rate_limiter, signal_locally_found_cids,
}

-- What `Syncer.Sync` returns, but for nil.
pub data SyncerError (Cid : Type 0) : Type 0 where
  cannot_open : List ℕ → SyncerError Cid
  transfer_error : DoneError Cid → SyncerError Cid
  context_error : SyncerError Cid

-- The Syncer, and what happens around a round of its loop, for the CID of the round.
pub record DtSyncer (Cid Peer Limiter World Node Block : Type 0) : Type 0 where
  pub same_key : Discrete (SyncKey Cid Peer)
  pub same_peer : Discrete Peer
  pub peer_id : Peer
  pub rate_limiter : Option Limiter
  pub has_hook : Bool
  pub allow : Limiter → World → Bool × World
  -- The text of `ctx.Err()`.
  pub context_text : List ℕ
  pub read : Cid → Option Block
  -- The traversal by a selector, if that compiles.
  pub walk : Node → Cid → Option (Walk Cid Block)
  -- The error of `OpenPullDataChannel`.
  pub open_error : Cid → DtSync Cid Peer Limiter World → Option (List ℕ)
  -- What others do until a case of the select is ready, and whether it takes that of `ctx.Done()`.
  pub meanwhile : Cid → DtSync Cid Peer Limiter World → DtSync Cid Peer Limiter World
  pub is_cancelled : Cid → DtSync Cid Peer Limiter World → Bool
  -- Whether the context is done before the wait for the rate limit has passed.
  pub is_wait_cancelled : Cid → DtSync Cid Peer Limiter World → Bool

module _ {Cid Peer Limiter World Node Block : Type 0}
    (syncer : DtSyncer Cid Peer Limiter World Node Block) where
  -- `has`: the CIDs that the traversal came to, if all is stored.
  unfoldable pub has : Cid → Node → Option (List Cid)
  unfolding walk_stored
  has c sel = elim (syncer.walk sel c) [ none ↦ none | some w ↦ walk_stored syncer.read w [] ]

  -- The select that waits for the transfer.
  unfoldable pub wait_done :
      Cid
      → ℕ
      → DtSync Cid Peer Limiter World
      → Outcome (DtSync Cid Peer Limiter World) (Option (DoneError Cid))
  unfolding signal_done
  wait_done c ch s =
      if syncer.is_cancelled c s
      then and_then
          (signal_done syncer.same_key (c, syncer.peer_id) (some (plain_error syncer.context_text))
            s)
          (λ _ t. on_waits t (receive ch t.waits))
      else on_waits s (receive ch s.waits)

  -- The loop, on fuel. `none` means that the fuel ran out.
  unfoldable pub sync_loop :
      ℕ
      → Cid
      → DtSync Cid Peer Limiter World
      → Option (Outcome (DtSync Cid Peer Limiter World) (Option (SyncerError Cid)))
  unfolding wait_done signal_done
  sync_loop zero c s = none
  sync_loop (suc fuel) c s =
      let (ch, w) = notify_on_sync_done syncer.same_key (c, syncer.peer_id) s.waits in
      let s₁ = record s { waits = w } in
      elim (syncer.open_error c s₁) [
        | some text ↦ some (
            and_then (signal_done syncer.same_key (c, syncer.peer_id) none s₁)
              (λ _ t. returns (some (cannot_open text)) t))
        | none ↦ elim (wait_done c ch (syncer.meanwhile c s₁)) [
          | blocks ↦ some blocks
          | panics ↦ some panics
          | returns none t ↦ some (returns none t)
          | returns (some (plain_error text)) t ↦
              some (returns (some (transfer_error (plain_error text))) t)
          | returns (some (rate_limit_error msg stopped_at_cid)) t ↦ elim syncer.rate_limiter [
            | none ↦ some panics
            | some limiter ↦ elim (syncer.is_wait_cancelled c t) [
              | true ↦ some (returns (some context_error) t)
              | false ↦
                  sync_loop fuel stopped_at_cid
                    (record t { world = (syncer.allow limiter t.world).1 })
            ]
          ]
        ]
      ]

  -- The call of `defer`.
  abbrev pub cleared : DtSync Cid Peer Limiter World → DtSync Cid Peer Limiter World
  cleared s = elim syncer.rate_limiter [
    | none ↦ s
    | some l ↦ clear_rate_limiter syncer.same_peer syncer.peer_id s
  ]

  abbrev pub limited : DtSync Cid Peer Limiter World → DtSync Cid Peer Limiter World
  limited s = elim syncer.rate_limiter [
    | none ↦ s
    | some l ↦ set_rate_limiter syncer.same_peer syncer.peer_id l s
  ]

  -- `Sync`
  unfoldable pub sync_pull :
      ℕ
      → Cid
      → Node
      → DtSync Cid Peer Limiter World
      → Option (Outcome (DtSync Cid Peer Limiter World) (Option (SyncerError Cid)))
  unfolding has sync_loop
  sync_pull fuel c sel s =
      let ran : Option (Outcome (DtSync Cid Peer Limiter World) (Option (SyncerError Cid))) =
        elim (has c sel) [
          | some cids ↦ some (
              and_then
                (signal_done syncer.same_key (c, syncer.peer_id) none
                  (signal_locally_found_cids syncer.has_hook syncer.peer_id cids (limited s)))
                (λ _ t. returns none t))
          | none ↦ sync_loop fuel c (limited s)
        ] in
      elim ran [ none ↦ none | some out ↦ some (and_then out (λ e t. returns e (cleared t))) ]
