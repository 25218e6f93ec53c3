-- ===== src/Dtsync/Waits.antt =====
-- dtsync/sync.go: the map from the syncs in progress to the channels that tell that they are done. A
-- channel is a number, with what its buffer of one error holds and whether it is closed. To close a
-- closed channel, or to send on one, is a panic.
pub mod Keys
pub mod Runs
pub mod Wakes
use go_legs.Prelude.{
  ℕ, ◌+◌, ◌≡◌, Bool, true, false, if◌then◌else◌, ltb, length, Option, none, some, List, [], ◌∷◌,
  ◌++◌, ite, ◌==◌, Outcome, returns, blocks, panics, and_then,
}
use go_legs.Subscriber.Events.{put}

pub record Waits (Key Err : Type 0) : Type 0 where
  -- The number of the channel that is made next.
  pub next_done : ℕ
  -- `none` is the nil map.
  pub sync_done_chans : Option (List (Key × ℕ))
  pub sent : ℕ → List Err
  pub is_done : ℕ → Bool

-- The zero value, but for the number of the first channel.
abbrev pub new_waits : {Key Err : Type 0} → Waits Key Err
new_waits = record { next_done = 0; sync_done_chans = none; sent = λ c. []; is_done = λ c. false }

-- The entries of a map that may be nil.
abbrev pub entries_of : {A : Type 0} → Option (List A) → List A
entries_of none = []
entries_of (some m) = m

-- `syncDone <- err`
abbrev pub send_error :
    {Key Err : Type 0} → Err → ℕ → Waits Key Err → Outcome (Waits Key Err) (Unit {0})
send_error e c s =
    if s.is_done c
    then panics
    else if ltb (length (s.sent c)) 1
    then returns tt (record s { sent = put s.sent c (s.sent c ++ e ∷ []) })
    else blocks

-- `close(syncDone)`
abbrev pub close_done : {Key Err : Type 0} → ℕ → Waits Key Err → Outcome (Waits Key Err) (Unit {0})
close_done c s =
    if s.is_done c then panics else returns tt (record s { is_done = put s.is_done c true })

abbrev pub send_if :
    {Key Err : Type 0} → Option Err → ℕ → Waits Key Err → Outcome (Waits Key Err) (Unit {0})
send_if none c s = returns tt s
send_if (some e) c s = send_error e c s

-- `<-syncDone`: an error, or nil when the channel is closed.
unfoldable pub receive :
    {Key Err : Type 0} → ℕ → Waits Key Err → Outcome (Waits Key Err) (Option Err)
receive c s = elim (s.sent c) [
  | [] ↦ if s.is_done c then returns none s else blocks
  | e ∷ es ↦ returns (some e) (record s { sent = put s.sent c es })
]

module _ {Key : Type 0} (same_key : Discrete Key) where
  -- `syncDoneChans[k]`, and `delete(syncDoneChans, k)`.
  unfoldable pub find : Key → List (Key × ℕ) → Option ℕ
  find k [] = none
  find k ((j, c) ∷ m) = ite (same_key j k) (some c) (find k m)

  unfoldable pub erase : Key → List (Key × ℕ) → List (Key × ℕ)
  erase k [] = []
  erase k ((j, c) ∷ m) = ite (same_key j k) (erase k m) ((j, c) ∷ erase k m)

  module _ {Err : Type 0} where
    unfoldable pub notify_on_sync_done : Key → Waits Key Err → ℕ × Waits Key Err
    unfolding erase
    notify_on_sync_done k s = (
      s.next_done,
      record s {
        next_done = s.next_done + 1;
        sync_done_chans = some ((k, s.next_done) ∷ erase k (entries_of s.sync_done_chans));
      },
    )

    -- Whether there was a channel.
    unfoldable pub signal_sync_done :
        Key → Option Err → Waits Key Err → Outcome (Waits Key Err) Bool
    unfolding find erase
    signal_sync_done k e s =
        let m = entries_of s.sync_done_chans in
        elim (find k m) [
          | none ↦ returns false s
          | some c ↦
              let rest = if length m == 1 then none else some (erase k m) in
              and_then (send_if e c (record s { sync_done_chans = rest }))
                (λ _ t. and_then (close_done c t) (λ _ u. returns true u))
        ]

-- The loop of `Close` over the channels.
unfoldable pub dismiss :
    {Key Err : Type 0} → Err → List (Key × ℕ) → Waits Key Err → Outcome (Waits Key Err) (Unit {0})
dismiss e [] s = returns tt s
dismiss e ((k, c) ∷ m) s =
    and_then (send_error e c s) (λ _ t. and_then (close_done c t) (λ _ u. dismiss e m u))

-- The part of `Close` that dismisses the waiting handlers.
unfoldable pub dismiss_waits :
    {Key Err : Type 0} → Err → Waits Key Err → Outcome (Waits Key Err) (Unit {0})
unfolding dismiss
dismiss_waits e s =
    and_then (dismiss e (entries_of s.sync_done_chans) s)
      (λ _ t. returns tt (record t { sync_done_chans = none }))
