-- ===== src/Dtsync/Syncer/Waiting.antt =====
-- dtsync/syncer.go: that the wait of a round of `Sync` ends, and what it leaves.
use go_legs.Prelude.{
  ℕ, ◌<◌, ◌≡◌, ◌≢◌, refl, ◌∙◌, subst, true, false, Option, none, some, List, ◌∷◌, arith, returns,
  ◌⊎◌, inl, inr, Bool-cases,
}
use go_legs.Dtsync.Waits.{entries_of, find, notify_on_sync_done}
use go_legs.Dtsync.Waits.Keys.{find-none-erase}
use go_legs.Dtsync.Waits.Runs.{Calls, IsSound, notify-IsSound}
use go_legs.Dtsync.Waits.Wakes.{Calls-IsSound}
use go_legs.Dtsync.Transfers.{
  DoneError, plain_error, rate_limit_error, SyncKey, DtSync, signal_done,
}
use go_legs.Dtsync.Syncer.{DtSyncer, wait_done}
use go_legs.Dtsync.Syncer.Ends.{listed-open, Keeps, Calls-Keeps, receive_of_done, signal-leaves}

module _ {Cid Peer Limiter World Node Block : Type 0}
    (syncer : DtSyncer Cid Peer Limiter World Node Block) where
  abbrev pub channel_of : Cid → DtSync Cid Peer Limiter World → Option ℕ
  channel_of c s = find syncer.same_key (c, syncer.peer_id) (entries_of s.waits.sync_done_chans)

  -- What is known of the goroutines that share the `Sync`. They make calls on the waits; while a sync
  -- of the publisher runs they start no other one of it, since the handler holds its mutex; the wait
  -- ends when the channel is closed, or by the context; and each rate limit error that they signal names
  -- a block that comes later in the order of `rank`, since the block at which the last sync stopped is
  -- stored by then, and comes only if there is a limiter.
  pub record IsPartner (rank : Cid → ℕ) : Type 0 where
    pub runs :
        (c : Cid) (s : DtSync Cid Peer Limiter World)
        → IsSound syncer.same_key s.waits
        → Calls syncer.same_key s.waits (syncer.meanwhile c s).waits
    pub alone :
        (c d : Cid) (s : DtSync Cid Peer Limiter World)
        → IsSound syncer.same_key s.waits
        → (channel_of d (syncer.meanwhile c s) ≡ none)
          ⊎ (channel_of d (syncer.meanwhile c s) ≡ channel_of d s)
    pub ends :
        (c : Cid) (ch : ℕ) (s : DtSync Cid Peer Limiter World)
        → IsSound syncer.same_key s.waits
        → channel_of c s ≡ some ch
        → syncer.is_cancelled c (syncer.meanwhile c s) ≡ false
        → (syncer.meanwhile c s).waits.is_done ch ≡ true
    pub stops :
        (c d : Cid) (ch : ℕ) (msg : List ℕ) (rest : List (DoneError Cid))
        (s : DtSync Cid Peer Limiter World)
        → IsSound syncer.same_key s.waits
        → channel_of c s ≡ some ch
        → (syncer.meanwhile c s).waits.sent ch ≡ rate_limit_error msg d ∷ rest
        → (rank d < rank c) × (l : Limiter) × (syncer.rate_limiter ≡ some l)

  -- No sync of the publisher is listed.
  abbrev pub IsAlone : DtSync Cid Peer Limiter World → Type 0
  IsAlone s = (d : Cid) → channel_of d s ≡ none

  -- After the wait: the waits are sound, none is listed for the publisher, and a rate limit error is
  -- one that the others signalled.
  abbrev pub WaitEnds : Cid → ℕ → DtSync Cid Peer Limiter World → Type 0
  WaitEnds c ch s =
      (e : Option (DoneError Cid)) × (t : DtSync Cid Peer Limiter World) × (wait_done syncer c ch s
        ≡ returns e t)
      × IsSound syncer.same_key t.waits
      × IsAlone t
      × ((d : Cid) (msg : List ℕ)
          → e ≡ some (rate_limit_error msg d)
          → (rest : List (DoneError Cid)) × (s.waits.sent ch ≡ rate_limit_error msg d ∷ rest))

  -- A channel that is new to the waits, and listed alone for the publisher.
  abbrev pub opened : Cid → DtSync Cid Peer Limiter World → DtSync Cid Peer Limiter World
  opened c s = record s {
    waits = (notify_on_sync_done syncer.same_key (c, syncer.peer_id) s.waits).1;
  }

  pub opened-listed :
      (c : Cid) (s : DtSync Cid Peer Limiter World)
      → channel_of c (opened c s) ≡ some s.waits.next_done
  unfolding notify_on_sync_done find
  opened-listed c s = ground arith

  pub opened-others :
      (c d : Cid) (s : DtSync Cid Peer Limiter World)
      → IsAlone s
      → ◌≢◌ {A = SyncKey Cid Peer} (c, syncer.peer_id) (d, syncer.peer_id)
      → channel_of d (opened c s) ≡ none
  unfolding notify_on_sync_done find
  opened-others c d s alone ne =
      let rest =
        find-none-erase syncer.same_key (d, syncer.peer_id) (c, syncer.peer_id)
          (entries_of s.waits.sync_done_chans) (alone d) in
      ground (arith, rest)

  -- The wait for a channel that is closed, or that is listed and whose wait was cancelled.
  wait_of_done :
      (c : Cid) (ch : ℕ) (s : DtSync Cid Peer Limiter World)
      → IsSound syncer.same_key s.waits
      → s.waits.is_done ch ≡ true
      → syncer.is_cancelled c s ≡ false
      → IsAlone s
      → WaitEnds c ch s
  unfolding wait_done
  wait_of_done c ch s h done going alone =
      let (e, w, got, sound, same, from) = receive_of_done syncer.same_key s.waits ch h done in
      (
        e,
        record s { waits = w },
        rw (wait_done, going, got) refl,
        sound,
        λ d. rw same (alone d),
        λ d msg q. from (rate_limit_error msg d) q,
      )

  wait_of_cancelled :
      (c : Cid) (ch : ℕ) (s : DtSync Cid Peer Limiter World)
      → IsSound syncer.same_key s.waits
      → Keeps syncer.same_key (c, syncer.peer_id) ch s.waits
      → syncer.is_cancelled c s ≡ true
      → ((d : Cid)
          → ◌≢◌ {A = SyncKey Cid Peer} (c, syncer.peer_id) (d, syncer.peer_id)
          → channel_of d s ≡ none)
      → WaitEnds c ch s
  unfolding wait_done signal_done
  wait_of_cancelled c ch s h kept stopped others =
      let err : DoneError Cid = plain_error syncer.context_text in
      let (found, t, ran, sound, done, gone, still, sent) =
        signal-leaves syncer.same_key s.waits (c, syncer.peer_id) ch (some err) h kept in
      let (e, w, got, sound', same, from) = receive_of_done syncer.same_key t ch sound done in
      (
        e,
        record s { waits = w },
        rw (wait_done, stopped, signal_done, ran, got) refl,
        sound',
        λ d. rw same (elim (syncer.same_key (c, syncer.peer_id) (d, syncer.peer_id)) [
          | yes e ↦ rw (← e) gone
          | no ne ↦ still (d, syncer.peer_id) (others d ne)
        ]),
        λ d msg q.
            let (rest, full) = from (rate_limit_error msg d) q in
            elim (sent (rate_limit_error msg d) rest full) [
              | inl mine ↦ absurd cc
              | inr theirs ↦ (rest, theirs)
            ],
      )

  still_listed :
      (t : DtSync Cid Peer Limiter World) (k j : SyncKey Cid Peer) (ch : ℕ)
      → IsSound syncer.same_key t.waits
      → t.waits.is_done ch ≡ true
      → k ≡ j
      → find syncer.same_key j (entries_of t.waits.sync_done_chans) ≡ some ch
      → find syncer.same_key j (entries_of t.waits.sync_done_chans) ≡ none
  still_listed t k j ch h done e listed =
      let (lt, still_open, empty) = listed-open syncer.same_key t.waits j ch h listed in
      absurd (ground (arith, done, still_open))

  module _ {rank : Cid → ℕ} (partner : IsPartner rank) where
    -- The wait of a round ends.
    pub round-WaitEnds :
        (c : Cid) (s : DtSync Cid Peer Limiter World)
        → IsSound syncer.same_key s.waits
        → IsAlone s
        → WaitEnds c s.waits.next_done (syncer.meanwhile c (opened c s))
    round-WaitEnds c s h alone =
        let ch = s.waits.next_done in
        let key : SyncKey Cid Peer = (c, syncer.peer_id) in
        let t = syncer.meanwhile c (opened c s) in
        let h₁ = notify-IsSound syncer.same_key s.waits key h (alone c) in
        let listed = opened-listed c s in
        let run = partner.runs c (opened c s) h₁ in
        let h₂ = Calls-IsSound syncer.same_key h₁ run in
        let kept = Calls-Keeps syncer.same_key key ch h₁ run (inr listed) in
        let others : (d : Cid)
            → ◌≢◌ {A = SyncKey Cid Peer} key (d, syncer.peer_id)
            → channel_of d t ≡ none =
          λ d ne. elim (partner.alone c d (opened c s) h₁) [
            | inl gone ↦ gone
            | inr same ↦ same ∙ opened-others c d s alone ne
          ] in
        elim (Bool-cases (syncer.is_cancelled c t)) [
          | inl stopped ↦ wait_of_cancelled c ch t h₂ kept stopped others
          | inr going ↦
              let done = partner.ends c ch (opened c s) h₁ listed going in
              wait_of_done c ch t h₂ done going (λ d.
                elim (syncer.same_key key (d, syncer.peer_id)) [
                  | no ne ↦ others d ne
                  | yes e ↦ elim (partner.alone c d (opened c s) h₁) [
                    | inl gone ↦ gone
                    | inr same ↦
                        still_listed t key (d, syncer.peer_id) ch h₂ done e
                          (same
                            ∙ subst
                                (λ (k : SyncKey Cid Peer).
                                  find syncer.same_key k
                                    (entries_of (opened c s).waits.sync_done_chans)
                                  ≡ some ch)
                                e listed)
                  ]
                ])
        ]
