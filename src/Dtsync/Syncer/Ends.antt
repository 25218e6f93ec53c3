-- ===== src/Dtsync/Syncer/Ends.antt =====
-- dtsync/sync.go and syncer.go: what other calls leave of a channel that is listed, and that the wait
-- for a transfer ends.
use go_legs.Prelude.{
  ℕ, ◌<◌, ◌≡◌, refl, sym, ◌∙◌, ◌==◌, Bool, true, false, Option, none, some, List, [], ◌∷◌, arith,
  returns, ◌⊎◌, inl, inr, Option-cases, List-cases, Bool-cases,
}
use go_legs.Subscriber.Events.{put}
use go_legs.Dtsync.Waits.{Waits, entries_of, receive, find, notify_on_sync_done, signal_sync_done}
use go_legs.Dtsync.Waits.Keys.{
  count-erase, find-erase_self, find-erase_ne, find-none-erase, entries_of-erase,
}
use go_legs.Dtsync.Waits.Runs.{
  Call, Calls, here, more, notifies, signals, receives, dismisses, IsSound, signalled,
  signal_of_listed,
}
use go_legs.Dtsync.Waits.Wakes.{Calls-IsSound, dismiss_waits-closes, receive-IsSound}

module _ {Key Err : Type 0} (same_key : Discrete Key) where
  -- A key that is listed has a channel that was made, is open and is empty.
  pub listed-open :
      (s : Waits Key Err) (k : Key) (c : ℕ)
      → IsSound same_key s
      → find same_key k (entries_of s.sync_done_chans) ≡ some c
      → (c < s.next_done) × (s.is_done c ≡ false) × (s.sent c ≡ [])
  listed-open s k c h listed =
      let e = count-erase same_key k _ c c h.is_map listed in ground (arith, h.channels c, e)

  -- The channel is closed, or is still that of its key.
  abbrev pub Keeps : Key → ℕ → Waits Key Err → Type 0
  Keeps k c s = (s.is_done c ≡ true) ⊎ (find same_key k (entries_of s.sync_done_chans) ≡ some c)

  Keeps-lt :
      (s : Waits Key Err) (k : Key) (c : ℕ) → IsSound same_key s → Keeps k c s → c < s.next_done
  Keeps-lt s k c h (inl done) = ground (arith, h.channels c)
  Keeps-lt s k c h (inr listed) = (listed-open s k c h listed).0

  notify-Keeps :
      (s : Waits Key Err) (k j : Key) (c : ℕ)
      → find same_key j (entries_of s.sync_done_chans) ≡ none
      → Keeps k c s
      → Keeps k c (notify_on_sync_done same_key j s).1
  unfolding notify_on_sync_done find
  notify-Keeps s k j c new (inl done) = inl done
  notify-Keeps s k j c new (inr listed) = elim (same_key j k) [
    | yes e ↦ absurd (ground (arith, e, new, listed))
    | no ne ↦ inr (ground (arith, find-erase_ne same_key k j (entries_of s.sync_done_chans)))
  ]

  signalled-Keeps :
      (s : Waits Key Err) (k j : Key) (c d : ℕ) (e : Option Err)
      → find same_key j (entries_of s.sync_done_chans) ≡ some d
      → Keeps k c s
      → Keeps k c (signalled same_key j d e s)
  signalled-Keeps s k j c d e listed (inl done) = inl (ground arith)
  signalled-Keeps s k j c d e listed (inr mine) = elim (same_key j k) [
    | yes same ↦ inl (ground (arith, same, listed, mine))
    | no ne ↦
        let others = entries_of-erase same_key j d (entries_of s.sync_done_chans) listed in
        let kept = find-erase_ne same_key k j (entries_of s.sync_done_chans) (λ q. ne (sym q)) in
        inr (rw others (kept ∙ mine))
  ]

  signal-Keeps :
      (s t : Waits Key Err) (k j : Key) (c : ℕ) (e : Option Err) (found : Bool)
      → IsSound same_key s
      → signal_sync_done same_key j e s ≡ returns found t
      → Keeps k c s
      → Keeps k c t
  unfolding signal_sync_done
  signal-Keeps s t k j c e found h ran kept =
      elim (Option-cases (find same_key j (entries_of s.sync_done_chans))) [
        | inl absent ↦ let same : s ≡ t = ground (arith, absent) in rw (← same) kept
        | inr (d, listed) ↦
            let (eq, sound) = signal_of_listed same_key s j d e h listed in
            let same : signalled same_key j d e s ≡ t = cc in
            rw (← same) (signalled-Keeps s k j c d e listed kept)
      ]

  call-Keeps :
      {s t : Waits Key Err} (k : Key) (c : ℕ)
      → IsSound same_key s
      → Call same_key s t
      → Keeps k c s
      → Keeps k c t
  unfolding receive
  call-Keeps {s} k c h (notifies j new) kept = notify-Keeps s k j c new kept
  call-Keeps {s} {t} k c h (signals j e found ran) kept = signal-Keeps s t k j c e found h ran kept
  call-Keeps {s} {t} k c h (receives d e lt ran) kept =
      let same_map : s.sync_done_chans ≡ t.sync_done_chans = ground arith in
      let same_done : s.is_done c ≡ t.is_done c = ground arith in
      ground (arith, same_map, same_done, kept)
  call-Keeps {s} {t} k c h (dismisses e ran) kept =
      let (u, ran', sound, each) = dismiss_waits-closes same_key s e h in
      let same : u ≡ t = cc in inl (rw (← same) (each c (Keeps-lt s k c h kept)))

  pub Calls-Keeps :
      {s t : Waits Key Err} (k : Key) (c : ℕ)
      → IsSound same_key s
      → Calls same_key s t
      → Keeps k c s
      → Keeps k c t
  Calls-Keeps k c h here kept = kept
  Calls-Keeps k c h (more run step) kept =
      call-Keeps k c (Calls-IsSound same_key h run) step (Calls-Keeps k c h run kept)

  -- What is received from a closed channel, and what that leaves.
  abbrev pub Receives : ℕ → Waits Key Err → Type 0
  Receives c s =
      (r : Option Err) × (u : Waits Key Err) × (receive c s ≡ returns r u)
      × IsSound same_key u
      × (u.sync_done_chans ≡ s.sync_done_chans)
      × ((x : Err) → r ≡ some x → (rest : List Err) × (s.sent c ≡ x ∷ rest))

  pub receive_of_done :
      (s : Waits Key Err) (c : ℕ) → IsSound same_key s → s.is_done c ≡ true → Receives c s
  unfolding receive
  receive_of_done s c h done =
      let lt : c < s.next_done = ground (arith, h.channels c) in
      elim (List-cases (s.sent c)) [
        | inl empty ↦ (none, s, ground (arith, empty), h, refl, λ x q. absurd (ground (arith, q)))
        | inr (x, xs, full) ↦
            let u : Waits Key Err = record s { sent = put s.sent c xs } in
            let ran : receive c s ≡ returns (some x) u = ground (arith, full) in
            (
              some x,
              u,
              ran,
              receive-IsSound same_key s u c (some x) h lt ran,
              refl,
              λ y q. (xs, ground (arith, full, q)),
            )
      ]

  -- What a signal leaves when the channel is closed or that of the key.
  abbrev pub SignalLeaves : Key → ℕ → Option Err → Waits Key Err → Type 0
  SignalLeaves k c e s =
      (found : Bool) × (t : Waits Key Err) × (signal_sync_done same_key k e s ≡ returns found t)
      × IsSound same_key t
      × (t.is_done c ≡ true)
      × (find same_key k (entries_of t.sync_done_chans) ≡ none)
      × ((j : Key)
          → find same_key j (entries_of s.sync_done_chans) ≡ none
          → find same_key j (entries_of t.sync_done_chans) ≡ none)
      × ((x : Err) (rest : List Err) → t.sent c ≡ x ∷ rest → (e ≡ some x) ⊎ (s.sent c ≡ x ∷ rest))

  sent-cases :
      (s : Waits Key Err) (k : Key) (c d : ℕ) (e : Option Err) (x : Err) (rest : List Err)
      → (signalled same_key k d e s).sent c ≡ x ∷ rest
      → (e ≡ some x) ⊎ (s.sent c ≡ x ∷ rest)
  sent-cases s k c d none x rest q = inr q
  sent-cases s k c d (some y) x rest q = elim (Bool-cases (c == d)) [
    | inl same ↦ inl (ground (arith, same))
    | inr other ↦ inr (ground (arith, other))
  ]

  signalled-leaves :
      (s : Waits Key Err) (k : Key) (c d : ℕ) (e : Option Err)
      → IsSound same_key s
      → Keeps k c s
      → find same_key k (entries_of s.sync_done_chans) ≡ some d
      → SignalLeaves k c e s
  signalled-leaves s k c d e h kept listed =
      let (eq, sound) = signal_of_listed same_key s k d e h listed in
      let m = entries_of s.sync_done_chans in
      let others = entries_of-erase same_key k d m listed in
      (
        true,
        signalled same_key k d e s,
        eq,
        sound,
        ground (arith, kept, listed),
        rw others (find-erase_self same_key k m),
        λ j absent. rw others (find-none-erase same_key j k m absent),
        sent-cases s k c d e,
      )

  pub signal-leaves :
      (s : Waits Key Err) (k : Key) (c : ℕ) (e : Option Err)
      → IsSound same_key s
      → Keeps k c s
      → SignalLeaves k c e s
  unfolding signal_sync_done
  signal-leaves s k c e h kept =
      elim (Option-cases (find same_key k (entries_of s.sync_done_chans))) [
        | inl absent ↦ (
          false,
          s,
          ground (arith, absent),
          h,
          ground (arith, absent, kept),
          absent,
          λ j q. q,
          λ x rest q. inr q,
        )
        | inr (d, listed) ↦ signalled-leaves s k c d e h kept listed
      ]
