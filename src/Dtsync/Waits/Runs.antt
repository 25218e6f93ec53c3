-- ===== src/Dtsync/Waits/Runs.antt =====
-- dtsync/sync.go: the calls that share the map of the syncs in progress, in any order. What each channel
-- is like in every state that they reach.
use go_legs.Prelude.{
  ℕ, ◌<◌, ◌≤◌, ◌≡◌, ◌==◌, if◌then◌else◌, Bool, true, false, Option, none, some, [], ◌∷◌, arith,
  length, returns,
}
use go_legs.Subscriber.Events.{put}
use go_legs.Dtsync.Waits.{
  Waits, entries_of, receive, find, erase, notify_on_sync_done, signal_sync_done, dismiss_waits,
}
use go_legs.Dtsync.Waits.Keys.{
  count, IsMap, find-erase_self, erase-IsMap, count-erase, erase_absent, entries_of-erase,
}

module _ {Key Err : Type 0} (same_key : Discrete Key) where
  -- One call. A new channel replaces none: `notifyOnSyncDone` comes for a key that is not listed.
  pub data Call (s : Waits Key Err) : Waits Key Err → Type 0 where
    notifies :
        (k : Key)
        → find same_key k (entries_of s.sync_done_chans) ≡ none
        → Call s (notify_on_sync_done same_key k s).1
    signals :
        {t : Waits Key Err} (k : Key) (e : Option Err) (found : Bool)
        → signal_sync_done same_key k e s ≡ returns found t
        → Call s t
    receives :
        {t : Waits Key Err} (c : ℕ) (e : Option Err)
        → c < s.next_done
        → receive c s ≡ returns e t
        → Call s t
    dismisses : {t : Waits Key Err} (e : Err) → dismiss_waits e s ≡ returns tt t → Call s t

  pub data Calls (s : Waits Key Err) : Waits Key Err → Type 0 where
    here : Calls s s
    more : {t u : Waits Key Err} → Calls s t → Call t u → Calls s u

  -- A channel is made and closed, or listed once, open and empty, or not made yet. It holds one error
  -- at most.
  abbrev pub IsChannel : Waits Key Err → ℕ → Type 0
  IsChannel s c =
      (count c (entries_of s.sync_done_chans) ≤ 1)
      × (count c (entries_of s.sync_done_chans) ≡ 1
          → (c < s.next_done) × (s.is_done c ≡ false) × (s.sent c ≡ []))
      × (s.next_done ≤ c → (s.is_done c ≡ false) × (s.sent c ≡ []))
      × (c < s.next_done → count c (entries_of s.sync_done_chans) ≡ 0 → s.is_done c ≡ true)
      × (length (s.sent c) ≤ 1)

  pub record IsSound (s : Waits Key Err) : Type 0 where
    pub is_map : IsMap same_key (entries_of s.sync_done_chans)
    pub channels : (c : ℕ) → IsChannel s c

  pub notify-IsSound :
      (s : Waits Key Err) (k : Key)
      → IsSound s
      → find same_key k (entries_of s.sync_done_chans) ≡ none
      → IsSound (notify_on_sync_done same_key k s).1
  unfolding notify_on_sync_done count IsMap
  notify-IsSound s k h new =
      let m = entries_of s.sync_done_chans in
      let gone = erase_absent same_key k m new in
      let rest = erase-IsMap same_key k m h.is_map in
      record {
        is_map = (find-erase_self same_key k m, rest);
        channels = λ c. ground (arith, h.channels c, h.channels s.next_done, gone);
      }

  -- The state after the channel of a key was signalled.
  abbrev pub signalled : Key → ℕ → Option Err → Waits Key Err → Waits Key Err
  signalled k c e s = record s {
    sync_done_chans =
        if length (entries_of s.sync_done_chans) == 1
        then none
        else some (erase same_key k (entries_of s.sync_done_chans));
    sent = elim e [ none ↦ s.sent | some x ↦ put s.sent c (x ∷ []) ];
    is_done = put s.is_done c true;
  }

  signalled-IsSound :
      (s : Waits Key Err) (k : Key) (c : ℕ) (e : Option Err)
      → IsSound s
      → find same_key k (entries_of s.sync_done_chans) ≡ some c
      → IsSound (signalled k c e s)
  signalled-IsSound s k c e h listed =
      let m = entries_of s.sync_done_chans in
      let same = entries_of-erase same_key k c m listed in
      let rest = erase-IsMap same_key k m h.is_map in
      record {
        is_map = rw same rest;
        channels = λ d. ground (
          arith,
          same,
          h.channels d,
          h.channels c,
          count-erase same_key k m c d h.is_map listed,
          count-erase same_key k m c c h.is_map listed,
        );
      }

  pub signal_of_listed :
      (s : Waits Key Err) (k : Key) (c : ℕ) (e : Option Err)
      → IsSound s
      → find same_key k (entries_of s.sync_done_chans) ≡ some c
      → (signal_sync_done same_key k e s ≡ returns true (signalled k c e s))
        × IsSound (signalled k c e s)
  unfolding signal_sync_done
  signal_of_listed s k c none h listed = (
    ground (arith, listed, h.channels c, count-erase same_key k _ c c h.is_map listed),
    signalled-IsSound s k c none h listed,
  )
  signal_of_listed s k c (some e) h listed = (
    ground (arith, listed, h.channels c, count-erase same_key k _ c c h.is_map listed),
    signalled-IsSound s k c (some e) h listed,
  )
