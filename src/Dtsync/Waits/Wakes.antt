-- ===== src/Dtsync/Waits/Wakes.antt =====
-- dtsync/sync.go: no call on the channels of the syncs in progress waits or panics, and no waiter waits
-- after its key was signalled, or after `Close`.
use go_legs.Prelude.{
  ℕ, ◌<◌, ◌≤◌, ◌≡◌, refl, Bool, true, false, Option, none, some, List, [], ◌∷◌, arith, returns, inl,
  inr, Option-cases, List-cases,
}
use go_legs.Subscriber.Events.{put}
use go_legs.Dtsync.Waits.{
  Waits, new_waits, entries_of, receive, find, signal_sync_done, dismiss, dismiss_waits,
}
use go_legs.Dtsync.Waits.Keys.{count, IsMap, count-erase}
use go_legs.Dtsync.Waits.Runs.{
  Call, Calls, here, more, notifies, signals, receives, dismisses, IsSound, notify-IsSound,
  signalled, signal_of_listed,
}

module _ {Key Err : Type 0} where
  -- The loop closes each channel that it comes to, with the error in it.
  dismiss-closes :
      (e : Err) (m : List (Key × ℕ)) (s : Waits Key Err)
      → ((c : ℕ) → (count c m ≤ 1) × (count c m ≡ 1 → (s.is_done c ≡ false) × (s.sent c ≡ [])))
      → (t : Waits Key Err) × (dismiss e m s ≡ returns tt t)
        × (t.next_done ≡ s.next_done)
        × ((c : ℕ)
            → (count c m ≡ 0 → (t.is_done c ≡ s.is_done c) × (t.sent c ≡ s.sent c))
              × (count c m ≡ 1 → (t.is_done c ≡ true) × (t.sent c ≡ e ∷ [])))
  unfolding dismiss count
  dismiss-closes e [] s h = (s, refl, refl, λ c. (λ z. (refl, refl), λ z. absurd (omega arith)))
  dismiss-closes e ((k, c) ∷ m) s h =
      let s₁ : Waits Key Err = record s {
        sent = put s.sent c (e ∷ []);
        is_done = put s.is_done c true;
      } in
      let (t, ran, next, each) = dismiss-closes e m s₁ (λ d. ground (arith, h d, h c)) in
      (t, ground (arith, h c, ran), next, λ d. ground (arith, each d, h d, h c))

  pub receive_of_done :
      (s : Waits Key Err) (c : ℕ)
      → s.is_done c ≡ true
      → (r : Option Err) × (u : Waits Key Err) × (receive c s ≡ returns r u)
  unfolding receive
  receive_of_done s c h = elim (List-cases (s.sent c)) [
    | inl empty ↦ (none, s, ground (arith, empty))
    | inr (x, xs, full) ↦ (some x, record s { sent = put s.sent c xs }, ground (arith, full))
  ]

  -- A waiter whose channel was signalled gets the error, or nil.
  receive_of_sent :
      (s : Waits Key Err) (c : ℕ) (e : Option Err)
      → s.is_done c ≡ true
      → s.sent c ≡ elim e [ none ↦ [] | some x ↦ x ∷ [] ]
      → (u : Waits Key Err) × (receive c s ≡ returns e u)
  unfolding receive
  receive_of_sent s c none h k = (s, ground arith)
  receive_of_sent s c (some x) h k = (record s { sent = put s.sent c [] }, ground arith)

module _ {Key Err : Type 0} (same_key : Discrete Key) where
  pub dismiss_waits-closes :
      (s : Waits Key Err) (e : Err)
      → IsSound same_key s
      → (t : Waits Key Err) × (dismiss_waits e s ≡ returns tt t)
        × IsSound same_key t
        × ((c : ℕ) → c < s.next_done → t.is_done c ≡ true)
  unfolding dismiss_waits count IsMap
  dismiss_waits-closes s e h =
      let (t, ran, next, each) =
        dismiss-closes e (entries_of s.sync_done_chans) s (λ c. ground (arith, h.channels c)) in
      (
        record t { sync_done_chans = none },
        ground (arith, ran),
        record { is_map = tt; channels = λ c. ground (arith, each c, h.channels c, next) },
        λ c lt. ground (arith, each c, h.channels c),
      )

  pub receive-IsSound :
      (s t : Waits Key Err) (c : ℕ) (e : Option Err)
      → IsSound same_key s
      → c < s.next_done
      → receive c s ≡ returns e t
      → IsSound same_key t
  unfolding receive
  receive-IsSound s t c e h lt ran = elim (List-cases (s.sent c)) [
    | inl empty ↦ let same : s ≡ t = ground (arith, empty) in rw (← same) h
    | inr (x, xs, full) ↦
        let same : record s { sent = put s.sent c xs } ≡ t = ground (arith, full) in
        let kept : IsSound same_key (record s { sent = put s.sent c xs }) = record {
          is_map = h.is_map;
          channels = λ d. ground (arith, h.channels d, h.channels c, full);
        } in
        rw (← same) kept
  ]

  signal-IsSound :
      (s t : Waits Key Err) (k : Key) (e : Option Err) (found : Bool)
      → IsSound same_key s
      → signal_sync_done same_key k e s ≡ returns found t
      → IsSound same_key t
  unfolding signal_sync_done
  signal-IsSound s t k e found h ran =
      elim (Option-cases (find same_key k (entries_of s.sync_done_chans))) [
        | inl absent ↦ let same : s ≡ t = ground (arith, absent) in rw (← same) h
        | inr (c, listed) ↦
            let (eq, sound) = signal_of_listed same_key s k c e h listed in
            let same : signalled same_key k c e s ≡ t = cc in rw (← same) sound
      ]

  pub call-IsSound :
      {s t : Waits Key Err} → IsSound same_key s → Call same_key s t → IsSound same_key t
  call-IsSound {s} h (notifies k new) = notify-IsSound same_key s k h new
  call-IsSound {s} {t} h (signals k e found ran) = signal-IsSound s t k e found h ran
  call-IsSound {s} {t} h (receives c e lt ran) = receive-IsSound s t c e h lt ran
  call-IsSound {s} {t} h (dismisses e ran) =
      let (u, ran', sound, _) = dismiss_waits-closes s e h in
      let same : u ≡ t = cc in rw (← same) sound

  pub new_waits-IsSound : IsSound same_key (new_waits {Key = Key} {Err = Err})
  unfolding IsMap count
  new_waits-IsSound = record { is_map = tt; channels = λ c. ground arith }

  pub Calls-IsSound :
      {s t : Waits Key Err} → IsSound same_key s → Calls same_key s t → IsSound same_key t
  Calls-IsSound h here = h
  Calls-IsSound h (more run step) = call-IsSound (Calls-IsSound h run) step

  sent-signalled :
      (s : Waits Key Err) (k : Key) (c : ℕ) (e : Option Err)
      → s.sent c ≡ []
      → (signalled same_key k c e s).sent c ≡ elim e [ none ↦ [] | some x ↦ x ∷ [] ]
  sent-signalled s k c none h = h
  sent-signalled s k c (some x) h = ground arith

  -- What it is to signal a key: with no channel nothing happens, and whoever waits on its channel
  -- gets the error, or nil.
  abbrev pub Signals : Waits Key Err → Key → Option Err → Option ℕ → Type 0
  Signals s k e none = signal_sync_done same_key k e s ≡ returns false s
  Signals s k e (some c) =
      (t : Waits Key Err) × (u : Waits Key Err) × (signal_sync_done same_key k e s ≡ returns true t)
      × (receive c t ≡ returns e u)

  pub signal-Signals :
      (s : Waits Key Err) (k : Key) (e : Option Err) (o : Option ℕ)
      → IsSound same_key s
      → find same_key k (entries_of s.sync_done_chans) ≡ o
      → Signals s k e o
  unfolding signal_sync_done
  signal-Signals s k e none h absent = ground (arith, absent)
  signal-Signals s k e (some c) h listed =
      let (ran, sound) = signal_of_listed same_key s k c e h listed in
      let empty : s.sent c ≡ [] =
        ground (arith, h.channels c, count-erase same_key k _ c c h.is_map listed) in
      let (u, got) =
        receive_of_sent (signalled same_key k c e s) c e (ground arith)
          (sent-signalled s k c e empty) in
      (signalled same_key k c e s, u, ran, got)

  -- After calls in any order on a new map, in which no new channel replaces one that is listed: to
  -- signal a key that is listed returns, and whoever waits on its channel then gets exactly the error
  -- that was sent, or nil; to signal one that is not listed returns and changes nothing; and to dismiss
  -- the waits returns, after which whoever waits on any channel that was made gets an error or nil.
  pub Calls-wake :
      (s : Waits Key Err) (k : Key) (e : Option Err) (c : ℕ) (closed : Err)
      → Calls same_key new_waits s
      → c < s.next_done
      → Signals s k e (find same_key k (entries_of s.sync_done_chans))
        × (t : Waits Key Err) × (u : Waits Key Err) × (r : Option Err) × (dismiss_waits closed s
            ≡ returns tt t)
        × (receive c t ≡ returns r u)
  Calls-wake s k e c closed run lt =
      let h = Calls-IsSound new_waits-IsSound run in
      let (t, ran, sound, each) = dismiss_waits-closes s closed h in
      let (r, u, got) = receive_of_done t c (each c lt) in
      (signal-Signals s k e _ h refl, t, u, r, ran, got)
