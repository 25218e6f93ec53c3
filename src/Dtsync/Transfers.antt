-- ===== src/Dtsync/Transfers.antt =====
-- dtsync/sync.go: the rate limiters, the hook for incoming blocks, and the events of a data transfer.
-- Texts are their bytes. go-cid's texts of CIDs and the limiters of golang.org/x/time/rate are
-- parameters.
pub mod Texts
pub mod Stops
use go_legs.Prelude.{
  ℕ, ◌+◌, ◌≡◌, Bool, true, false, not, ◌&&◌, ◌||◌, if◌then◌else◌, ltb, length, drop, take, Option,
  none, some, List, [], ◌∷◌, ◌++◌, ◌==◌, Result, ok, err, Outcome, returns, blocks, panics,
  and_then,
}
use go_legs.Dtsync.Waits.{Waits, signal_sync_done, dismiss_waits}
use Texts.{index_of, has_suffix}

-- What is sent on the channel of a sync: an error with a text, or a `rateLimitErr`.
pub data DoneError (Cid : Type 0) : Type 0 where
  plain_error : List ℕ → DoneError Cid
  rate_limit_error : List ℕ → Cid → DoneError Cid

-- `inProgressSyncKey`
abbrev pub SyncKey : Type 0 → Type 0 → Type 0
SyncKey Cid Peer = Cid × Peer

-- `Sync`: the waits, the limiters, the calls of the block hook so far, and the state of all limiters.
pub record DtSync (Cid Peer Limiter World : Type 0) : Type 0 where
  pub waits : Waits (SyncKey Cid Peer) (DoneError Cid)
  pub rate_limiters : Peer → Option Limiter
  pub hooked : List (Peer × Cid)
  pub world : World

-- `dt.Status`, as far as `onEvent` tells them apart.
pub data Status : Type 0 where
  completed cancelled failed_transfer other_status : Status

-- "hitRateLimit"
abbrev pub hit_rate_limit : List ℕ
hit_rate_limit = 104 ∷ 105 ∷ 116 ∷ 82 ∷ 97 ∷ 116 ∷ 101 ∷ 76 ∷ 105 ∷ 109 ∷ 105 ∷ 116 ∷ []

-- "content not found"
abbrev pub content_not_found : List ℕ
content_not_found =
    99 ∷ 111 ∷ 110 ∷ 116 ∷ 101 ∷ 110 ∷ 116 ∷ 32 ∷ 110 ∷ 111 ∷ 116 ∷ 32 ∷ 102 ∷ 111 ∷ 117 ∷ 110 ∷ 100
    ∷ []

-- The fixed texts "datatransfer cancelled", "datatransfer failed: " and "sync closed".
pub record DtTexts : Type 0 where
  pub cancelled_text : List ℕ
  pub failed_text : List ℕ
  pub closed_text : List ℕ

module _ {Cid : Type 0} where
  abbrev pub error_text : DoneError Cid → List ℕ
  error_text (plain_error msg) = msg
  error_text (rate_limit_error msg c) = msg

  -- The CID that the message of a rate limit names. `none` is a panic: a slice is out of range.
  unfoldable pub stopped_at : (List ℕ → Result (List ℕ) Cid) → List ℕ → ℕ → Option (DoneError Cid)
  stopped_at decode msg idx =
      let from = idx + length hit_rate_limit + 1 in
      if ltb (length msg) from then none else elim (index_of (41 ∷ []) (drop from msg)) [
        | none ↦ none
        | some last_paren ↦ elim (decode (take last_paren (drop from msg))) [
          | ok c ↦ some (rate_limit_error msg c)
          | err text ↦ some (plain_error text)
        ]
      ]

  -- The error of a failed transfer, from its message.
  unfoldable pub failure_of :
      DtTexts → (List ℕ → Result (List ℕ) Cid) → List ℕ → Option (DoneError Cid)
  unfolding stopped_at
  failure_of texts decode msg =
      let found : Option (DoneError Cid) = elim (index_of hit_rate_limit msg) [
        | some idx ↦ stopped_at decode msg idx
        | none ↦ some (plain_error (texts.failed_text ++ msg))
      ] in
      elim found [
        | none ↦ none
        | some e ↦
            if has_suffix content_not_found msg
            then some (plain_error (error_text e ++ 58 ∷ 32 ∷ content_not_found))
            else some e
      ]

-- A call on the waits of a `Sync`.
abbrev pub on_waits :
    {Cid Peer Limiter World A : Type 0}
    → DtSync Cid Peer Limiter World
    → Outcome (Waits (SyncKey Cid Peer) (DoneError Cid)) A
    → Outcome (DtSync Cid Peer Limiter World) A
on_waits s (returns a w) = returns a (record s { waits = w })
on_waits s blocks = blocks
on_waits s panics = panics

module _ {Cid Peer Limiter World : Type 0} (same_key : Discrete (SyncKey Cid Peer)) where
  -- `signalSyncDone` on the `Sync`.
  unfoldable pub signal_done :
      SyncKey Cid Peer
      → Option (DoneError Cid)
      → DtSync Cid Peer Limiter World
      → Outcome (DtSync Cid Peer Limiter World) Bool
  signal_done k e s = on_waits s (signal_sync_done same_key k e s.waits)

  -- `onEvent`; the flag tells whether a channel was found.
  unfoldable pub on_event :
      DtTexts
      → (List ℕ → Result (List ℕ) Cid)
      → Status
      → List ℕ
      → SyncKey Cid Peer
      → DtSync Cid Peer Limiter World
      → Outcome (DtSync Cid Peer Limiter World) Bool
  unfolding failure_of signal_done
  on_event texts decode completed msg k s = signal_done k none s
  on_event texts decode cancelled msg k s =
      signal_done k (some (plain_error texts.cancelled_text)) s
  on_event texts decode failed_transfer msg k s = elim (failure_of texts decode msg) [
    | none ↦ panics
    | some e ↦ signal_done k (some e) s
  ]
  on_event texts decode other_status msg k s = returns false s

module _ {Cid Peer Limiter World : Type 0} (same_peer : Discrete Peer) where
  unfoldable pub set_rate_limiter :
      Peer → Limiter → DtSync Cid Peer Limiter World → DtSync Cid Peer Limiter World
  set_rate_limiter p l s = record s {
    rate_limiters = λ q. elim (same_peer p q) [ yes _ ↦ some l | no _ ↦ s.rate_limiters q ];
  }

  unfoldable pub clear_rate_limiter :
      Peer → DtSync Cid Peer Limiter World → DtSync Cid Peer Limiter World
  clear_rate_limiter p s = record s {
    rate_limiters = λ q. elim (same_peer p q) [ yes _ ↦ none | no _ ↦ s.rate_limiters q ];
  }

-- `limiter.Allow()`, where no limiter allows everything.
unfoldable pub allows :
    {Limiter World : Type 0}
    → (Limiter → World → Bool × World)
    → Option Limiter
    → World
    → Bool × World
allows allow none w = (true, w)
allows allow (some l) w = allow l w

module _ {Cid Peer Limiter World : Type 0} (allow : Limiter → World → Bool × World)
    (cid_text : Cid → List ℕ) where
  -- The hook that `NewSync` registers: `addRateLimiting` around `addIncomingBlockHook`. It gives the
  -- error that it terminates the transfer with, or calls the block hook.
  unfoldable pub incoming_block :
      Peer
      → ℕ
      → Cid
      → DtSync Cid Peer Limiter World
      → Option (List ℕ) × DtSync Cid Peer Limiter World
  unfolding allows
  incoming_block p block_size_on_wire c s =
      let is_local_block = block_size_on_wire == 0 in
      let (allowed, w) =
        if is_local_block then (true, s.world) else allows allow (s.rate_limiters p) s.world in
      if allowed
      then (none, record s { hooked = s.hooked ++ (p, c) ∷ []; world = w })
      else (some (hit_rate_limit ++ 40 ∷ (cid_text c ++ 41 ∷ [])), record s { world = w })

unfoldable pub hook_each : {Cid Peer : Type 0} → Peer → List Cid → List (Peer × Cid)
hook_each p [] = []
hook_each p (c ∷ cs) = (p, c) ∷ hook_each p cs

module _ {Cid Peer Limiter World : Type 0} where
  -- `signalLocallyFoundCids`, with whether there is a block hook.
  unfoldable pub signal_locally_found_cids :
      Bool → Peer → List Cid → DtSync Cid Peer Limiter World → DtSync Cid Peer Limiter World
  unfolding hook_each
  signal_locally_found_cids has_hook p cs s =
      if has_hook then record s { hooked = s.hooked ++ hook_each p cs } else s

  -- `Close`: the calls of the foreign packages give an error or none.
  unfoldable pub close_sync :
      DtTexts
      → Option (Option (List ℕ))
      → DtSync Cid Peer Limiter World
      → Outcome (DtSync Cid Peer Limiter World) (Option (List ℕ))
  close_sync texts dt_close s =
      and_then (on_waits s (dismiss_waits (plain_error texts.closed_text) s.waits))
        (λ _ t. returns (elim dt_close [ none ↦ none | some e ↦ e ]) t)
