-- ===== src/Subscriber/Events/Delivery.antt =====
-- subscriber.go: what the readers of finished syncs get, and that no channel is closed twice or used
-- after it was closed.
use go_legs.Prelude.{
  ℕ, ◌+◌, ◌≤◌, ◌≡◌, refl, ◌==◌, Bool, true, false, if◌then◌else◌, ltb, length, List, [], ◌∷◌, ◌++◌,
  returns, blocks, arith, Bool-cases, inl, inr, ◌⊎◌,
}
use go_legs.Subscriber.Events.{
  Readers, put, on_sync_finished, close_chan, cancel, send, send_all, distribute, send_some,
  stalled, close_all, dismiss_readers,
}
use go_legs.Subscriber.Events.Times.{times, times-append, times-swap_out, times-at, swap_out-absent}

abbrev pub bit : Bool → ℕ
bit true = 1
bit false = 0

module _ {Event : Type 0} where
  -- A channel that was made is open and listed at most once, or closed and not listed.
  abbrev pub IsSound : Readers Event → Type 0
  IsSound s = (c : ℕ) → times c s.out_events_chans + bit (s.is_closed c) ≤ bit (ltb c s.next_chan)

  send_all-cases :
      (event : Event) (cs : List ℕ) (s : Readers Event)
      → ((c : ℕ) → times c cs + bit (s.is_closed c) ≤ 1)
      → ((c : ℕ) × (1 ≤ times c cs) × (1 ≤ length (s.buffer c)) × (send_all event cs s ≡ blocks))
        ⊎ ((b : ℕ → List Event) × (send_all event cs s ≡ returns tt (record s { buffer = b }))
            × ((c : ℕ) → b c ≡ (if times c cs == 0 then s.buffer c else s.buffer c ++ event ∷ [])))
  unfolding send_all send times
  send_all-cases event [] s h = inr (s.buffer, refl, λ c. refl)
  send_all-cases event (c ∷ cs) s h =
      let open_chan : s.is_closed c ≡ false = ground (arith, h c) in
      let gone : times c cs ≡ 0 = ground (arith, h c) in
      elim (Bool-cases (ltb (length (s.buffer c)) 1)) [
        | inr full ↦ inl (c, ground arith, ground (arith, full), ground (arith, open_chan, full))
        | inl room ↦
            let b₁ = put s.buffer c (s.buffer c ++ event ∷ []) in
            let next : Readers Event = record s { buffer = b₁ } in
            elim (send_all-cases event cs next (λ j. ground (arith, h j))) [
              | inl (d, listed, full, e) ↦ inl (
                d,
                ground (arith, listed),
                ground (arith, listed, full, gone),
                ground (arith, open_chan, room, e),
              )
              | inr (b, e, delivered) ↦
                  inr
                    (b, ground (arith, open_chan, room, e), λ j. ground (arith, delivered j, gone))
            ]
      ]

  -- With readers whose channels are open and listed at most once, and a free mutex, an event with a CID reaches
  -- every reader once, at the end of its buffer, and no one else, unless distributeEvents waits,
  -- which it does only for a reader whose buffer is full; it never sends on a closed channel.
  pub distribute-delivers :
      (event : Event) (s : Readers Event)
      → IsSound s
      → s.out_events_mutex ≡ false
      → ((c : ℕ) × (times c s.out_events_chans ≡ 1)
          × (1 ≤ length (s.buffer c))
          × (distribute true event s ≡ blocks))
        ⊎ ((b : ℕ → List Event) × (distribute true event s ≡ returns tt (record s { buffer = b }))
            × ((c : ℕ)
                → b c ≡ (
                    if times c s.out_events_chans == 0
                    then s.buffer c
                    else s.buffer c ++ event ∷ [])))
  unfolding distribute
  distribute-delivers event s v free =
      elim (send_all-cases event s.out_events_chans s (λ c. ground (arith, v c))) [
        | inl (c, listed, full, e) ↦
            inl (c, ground (arith, listed, v c), full, ground (arith, free, e))
        | inr (b, e, delivered) ↦ inr (b, ground (arith, free, e), delivered)
      ]

  -- A round of `distributeEvents` that waits holds the mutex.
  send_some-locked :
      (event : Event) (cs : List ℕ) (s : Readers Event)
      → (send_some event cs s).out_events_mutex ≡ s.out_events_mutex
  unfolding send_some send
  send_some-locked event [] s = refl
  send_some-locked event (c ∷ cs) s = elim (Bool-cases (s.is_closed c)) [
    | inl shut ↦ rw (send_some, shut) refl
    | inr live ↦ elim (Bool-cases (ltb (length (s.buffer c)) 1)) [
      | inl room ↦
          rw (send_some, live, room)
            (send_some-locked event cs
              (record s { buffer = put s.buffer c (s.buffer c ++ event ∷ []) }))
      | inr full ↦ rw (send_some, live, full) refl
    ]
  ]

  pub stalled-locked :
      (event : Event) (s : Readers Event) → (stalled event s).out_events_mutex ≡ true
  unfolding stalled
  stalled-locked event s =
      send_some-locked event s.out_events_chans (record s { out_events_mutex = true })

  -- With readers whose channels are open and listed at most once, and a free mutex, to cancel one
  -- returns, closes its channel if it is listed and takes it out of the list, and leaves the others; to
  -- cancel it again does nothing. But while a round of distributeEvents waits for a reader, to cancel
  -- any one waits as well.
  pub cancel-closes :
      (ch : ℕ) (s : Readers Event)
      → IsSound s
      → s.out_events_mutex ≡ false
      → (t : Readers Event) × (cancel ch s ≡ returns tt t)
        × (cancel ch t ≡ returns tt t)
        × IsSound t
        × ((c : ℕ)
            → times c t.out_events_chans ≡ (if c == ch then 0 else times c s.out_events_chans))
        × ((c : ℕ)
            → bit (t.is_closed c)
              ≡ bit (s.is_closed c) + (if c == ch then times c s.out_events_chans else 0))
        × ((event : Event) → cancel ch (stalled event s) ≡ blocks)
  unfolding cancel close_chan
  cancel-closes ch s v free = elim (times-swap_out ch s.out_events_chans) [
    | inl (absent, zero_times) ↦ (
      s,
      ground (arith, free, absent),
      ground (arith, free, absent),
      v,
      λ c. times-at c ch s.out_events_chans zero_times,
      λ c. ground (arith, times-at c ch s.out_events_chans zero_times),
      λ event. ground (arith, stalled-locked event s),
    )
    | inr (kept, found, count) ↦
        let open_chan : s.is_closed ch ≡ false = ground (arith, v ch, count ch) in
        let once : times ch kept ≡ 0 = ground (arith, v ch, count ch) in
        let gone = swap_out-absent ch kept once in
        (
          record s { out_events_chans = kept; is_closed = put s.is_closed ch true },
          ground (arith, free, found, open_chan),
          ground (arith, free, gone),
          λ c. ground (arith, v c, count c, once, times-at c ch kept once),
          λ c. ground (arith, count c, times-at c ch kept once),
          λ c. ground (arith, v c, count c, once, open_chan, times-at c ch kept once),
          λ event. ground (arith, stalled-locked event s),
        )
  ]

  -- With readers whose channels are open and listed at most once, and a free mutex, a new reader has a
  -- channel of its own, open and listed once, and the others keep theirs.
  pub on_sync_finished-lists :
      (s : Readers Event)
      → IsSound s
      → s.out_events_mutex ≡ false
      → (ch : ℕ) × (t : Readers Event) × (on_sync_finished s ≡ returns ch t)
        × IsSound t
        × (t.is_closed ch ≡ false)
        × ((c : ℕ)
            → times c t.out_events_chans ≡ times c s.out_events_chans + (if c == ch then 1 else 0))
  unfolding on_sync_finished times
  on_sync_finished-lists s v free = (
    s.next_chan,
    record s {
      next_chan = s.next_chan + 1;
      out_events_chans = s.out_events_chans ++ s.next_chan ∷ [];
    },
    ground (arith, free),
    λ c. ground (arith, v c, times-append c s.out_events_chans (s.next_chan ∷ [])),
    ground (arith, v s.next_chan),
    λ c. ground (arith, times-append c s.out_events_chans (s.next_chan ∷ [])),
  )

  close_all-closes :
      (cs : List ℕ) (s : Readers Event)
      → ((c : ℕ) → times c cs + bit (s.is_closed c) ≤ 1)
      → (f : ℕ → Bool) × (close_all cs s ≡ returns tt (record s { is_closed = f }))
        × ((c : ℕ) → bit (f c) ≡ bit (s.is_closed c) + times c cs)
  unfolding close_all close_chan times
  close_all-closes [] s h = (s.is_closed, refl, λ c. omega arith)
  close_all-closes (c ∷ cs) s h =
      let open_chan : s.is_closed c ≡ false = ground (arith, h c) in
      let next : Readers Event = record s { is_closed = put s.is_closed c true } in
      let (f, e, closes) = close_all-closes cs next (λ j. ground (arith, h j, h c)) in
      (f, ground (arith, open_chan, e), λ j. ground (arith, closes j, open_chan))

  -- With readers whose channels are open and listed at most once, and a free mutex, to dismiss them
  -- returns: it closes every channel that is listed, each once, and lists none. But while a round of
  -- distributeEvents waits for a reader, to dismiss them waits as well.
  pub dismiss_readers-closes :
      (s : Readers Event)
      → IsSound s
      → s.out_events_mutex ≡ false
      → (t : Readers Event) × (dismiss_readers s ≡ returns tt t)
        × IsSound t
        × (t.out_events_chans ≡ [])
        × ((c : ℕ) → bit (t.is_closed c) ≡ bit (s.is_closed c) + times c s.out_events_chans)
        × ((event : Event) → dismiss_readers (stalled event s) ≡ blocks)
  unfolding dismiss_readers times
  dismiss_readers-closes s v free =
      let (f, e, closes) = close_all-closes s.out_events_chans s (λ c. ground (arith, v c)) in
      (
        record s { out_events_chans = []; is_closed = f },
        ground (arith, free, e),
        λ c. ground (arith, closes c, v c),
        refl,
        closes,
        λ event. ground (arith, stalled-locked event s),
      )
