-- ===== src/Subscriber/Events.antt =====
-- subscriber.go: the readers of finished syncs. A channel is a number, with what its buffer of one event
-- holds and whether it is closed. To close a closed channel, or to send on one, is a panic. A call that
-- locks `outEventsMutex` and returns has unlocked it again.
pub mod Times
pub mod Delivery
mod Tests
use go_legs.Prelude.{
  ℕ, ◌+◌, ◌==◌, Bool, true, false, if◌then◌else◌, ltb, length, Option, none, some, List, [], ◌∷◌,
  ◌++◌, Outcome, returns, blocks, panics, and_then,
}

pub record Readers (Event : Type 0) : Type 0 where
  -- The number of the channel that is made next.
  pub next_chan : ℕ
  pub out_events_chans : List ℕ
  pub buffer : ℕ → List Event
  pub is_closed : ℕ → Bool
  -- `outEventsMutex` is held.
  pub out_events_mutex : Bool

abbrev pub put : {A : Type 0} → (ℕ → A) → ℕ → A → ℕ → A
put f c v = λ j. if j == c then v else f j

-- The element at the end of `c ∷ cs`, and the ones before it.
abbrev last_of : ℕ → List ℕ → ℕ
last_of c [] = c
last_of c (d ∷ cs) = last_of d cs

abbrev but_last : ℕ → List ℕ → List ℕ
but_last c [] = []
but_last c (d ∷ cs) = c ∷ but_last d cs

-- The slice without the first `ch`, whose place the last element takes; `none` if it has none.
unfoldable pub swap_out : ℕ → List ℕ → Option (List ℕ)
swap_out ch [] = none
swap_out ch (c ∷ []) = if c == ch then some [] else none
swap_out ch (c ∷ d ∷ cs) =
    let rest = swap_out ch (d ∷ cs) in
    if c == ch
    then some (last_of d cs ∷ but_last d cs)
    else elim rest [ none ↦ none | some kept ↦ some (c ∷ kept) ]

abbrev pub Call : Type 0 → Type 0
Call Event = Readers Event → Outcome (Readers Event) (Unit {0})

module _ {Event : Type 0} where
  -- `OnSyncFinished`: the channel.
  unfoldable pub on_sync_finished : Readers Event → Outcome (Readers Event) ℕ
  on_sync_finished s =
      if s.out_events_mutex
      then blocks
      else returns s.next_chan (record s {
        next_chan = s.next_chan + 1;
        out_events_chans = s.out_events_chans ++ s.next_chan ∷ [];
      })

  unfoldable pub close_chan : ℕ → Call Event
  close_chan c s =
      if s.is_closed c then panics else returns tt (record s { is_closed = put s.is_closed c true })

  -- The function that `OnSyncFinished` returns.
  unfoldable pub cancel : ℕ → Call Event
  cancel ch s = if s.out_events_mutex then blocks else elim (swap_out ch s.out_events_chans) [
    | none ↦ returns tt s
    | some kept ↦ close_chan ch (record s { out_events_chans = kept })
  ]

  -- `ch <- event`
  unfoldable pub send : Event → ℕ → Call Event
  send event c s =
      if s.is_closed c
      then panics
      else if ltb (length (s.buffer c)) 1
      then returns tt (record s { buffer = put s.buffer c (s.buffer c ++ event ∷ []) })
      else blocks

  unfoldable pub send_all : Event → List ℕ → Call Event
  send_all event [] s = returns tt s
  send_all event (c ∷ cs) s = and_then (send event c s) (λ _ t. send_all event cs t)

  -- One round of `distributeEvents`; the flag tells whether the CID of the event is defined.
  unfoldable pub distribute : Bool → Event → Call Event
  distribute is_defined event s =
      if is_defined
      then (if s.out_events_mutex then blocks else send_all event s.out_events_chans s)
      else panics

  -- How far the sends come before one waits.
  unfoldable pub send_some : Event → List ℕ → Readers Event → Readers Event
  unfolding send
  send_some event [] s = s
  send_some event (c ∷ cs) s = elim (send event c s) [
    | returns _ t ↦ send_some event cs t
    | blocks ↦ s
    | panics ↦ s
  ]

  -- The state in which a round of `distributeEvents` waits, if it has to wait for a reader: it holds
  -- the mutex.
  unfoldable pub stalled : Event → Readers Event → Readers Event
  unfolding send_some
  stalled event s = send_some event s.out_events_chans (record s { out_events_mutex = true })

  unfoldable pub close_all : List ℕ → Call Event
  close_all [] s = returns tt s
  close_all (c ∷ cs) s = and_then (close_chan c s) (λ _ t. close_all cs t)

  -- The part of `doClose` that dismisses the readers.
  unfoldable pub dismiss_readers : Call Event
  dismiss_readers s =
      if s.out_events_mutex
      then blocks
      else and_then (close_all s.out_events_chans s)
          (λ _ t. returns tt (record t { out_events_chans = [] }))
