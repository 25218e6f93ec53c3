-- ===== src/Subscriber/Events/Tests.antt =====
-- subscriber.go: two readers of finished syncs, of which one is cancelled.
use go_legs.Prelude.{
  ℕ, ◌+◌, ◌≤◌, ◌≡◌, refl, ◌==◌, if◌then◌else◌, true, false, length, List, [], ◌∷◌, ◌++◌, returns,
  blocks, arith, ◌⊎◌,
}
use go_legs.Subscriber.Events.{
  Readers, on_sync_finished, cancel, distribute, send_all, send, stalled, dismiss_readers,
}
use go_legs.Subscriber.Events.Times.{times}
use go_legs.Subscriber.Events.Delivery.{
  bit, IsSound, distribute-delivers, cancel-closes, dismiss_readers-closes,
}

abbrev nobody : Readers ℕ
nobody = record {
  next_chan = 0;
  out_events_chans = [];
  buffer = λ c. [];
  is_closed = λ c. false;
  out_events_mutex = false;
}

abbrev two_readers : Readers ℕ
two_readers = record nobody { next_chan = 2; out_events_chans = 0 ∷ 1 ∷ [] }

abbrev one_reader : Readers ℕ
one_reader = record nobody { next_chan = 1; out_events_chans = 0 ∷ [] }

lists_two :
    (on_sync_finished nobody ≡ returns 0 one_reader)
    × (on_sync_finished one_reader ≡ returns 1 two_readers)
unfolding on_sync_finished
lists_two = (refl, refl)

two_readers-IsSound : IsSound two_readers
unfolding times
two_readers-IsSound c = ground arith

-- Reader 0 has not taken its event.
abbrev full_reader : Readers ℕ
full_reader = record two_readers { buffer = λ c. 6 ∷ [] }

waits : distribute true 7 full_reader ≡ blocks
unfolding distribute send_all send
waits = refl

distribute-delivers_example :
    ((c : ℕ) × (times c two_readers.out_events_chans ≡ 1)
      × (1 ≤ length (two_readers.buffer c))
      × (distribute true 7 two_readers ≡ blocks))
    ⊎ ((b : ℕ → List ℕ) × (distribute true 7 two_readers
          ≡ returns tt (record two_readers { buffer = b }))
        × ((c : ℕ)
            → b c ≡ (
                if times c two_readers.out_events_chans == 0
                then two_readers.buffer c
                else two_readers.buffer c ++ 7 ∷ [])))
distribute-delivers_example = distribute-delivers 7 two_readers two_readers-IsSound refl

cancel-closes_example :
    (t : Readers ℕ) × (cancel 0 two_readers ≡ returns tt t)
    × (cancel 0 t ≡ returns tt t)
    × IsSound t
    × ((c : ℕ)
        → times c t.out_events_chans ≡ (if c == 0 then 0 else times c two_readers.out_events_chans))
    × ((c : ℕ)
        → bit (t.is_closed c)
          ≡ bit (two_readers.is_closed c)
            + (if c == 0 then times c two_readers.out_events_chans else 0))
    × ((event : ℕ) → cancel 0 (stalled event two_readers) ≡ blocks)
cancel-closes_example = cancel-closes 0 two_readers two_readers-IsSound refl

dismiss_readers-closes_example :
    (t : Readers ℕ) × (dismiss_readers two_readers ≡ returns tt t)
    × IsSound t
    × (t.out_events_chans ≡ [])
    × ((c : ℕ)
        → bit (t.is_closed c)
          ≡ bit (two_readers.is_closed c) + times c two_readers.out_events_chans)
    × ((event : ℕ) → dismiss_readers (stalled event two_readers) ≡ blocks)
dismiss_readers-closes_example = dismiss_readers-closes two_readers two_readers-IsSound refl
