-- ===== src/Subscriber/Async/Tests.antt =====
-- subscriber.go, `handleAsync`: three announcements, the last two while the first is synced, and what
-- comes of an announcement of `cid.Undef`.
use go_legs.Prelude.{
  ℕ, ◌≤◌, ◌≡◌, refl, true, false, Option, none, some, List, [], ◌∷◌, ◌++◌, length, ◌⊎◌, ℕ_discrete,
  All,
}
use go_legs.Subscriber.Async.{
  waiting, locked, handling, sending, Handler, is_defined, handle_async, take_pending, finish,
  send_event, go,
}
use go_legs.Subscriber.Async.Steps.{announces, goes, Run, here, more}
use go_legs.Subscriber.Async.Sound.{IsSound}
use go_legs.Subscriber.Async.Runs.{
  IsDefined, new_handler, new_handler-IsSound, new_handler-goroutines, taken-latest,
}
use go_legs.Subscriber.Async.Progress.{Moves, WaitsToSend, new_handler-Moves}

abbrev State : Type 0
State = Handler ℕ ℕ ℕ

-- Another handler has a goroutine.
abbrev fresh : State
fresh = new_handler ℕ_discrete 0 3 none [] 1

-- Every sync gets the block that was asked for.
abbrev itself : ℕ → Option ℕ → Option (List ℕ)
itself c syncer = some (c ∷ [])

abbrev first_announced : State
first_announced = handle_async ℕ_discrete 0 1 10 fresh

abbrev first_locked : State
first_locked = record first_announced { goroutines = locked ∷ []; latest_sync_mu = true }

abbrev first_taken : State
first_taken = take_pending ℕ_discrete 0 [] [] first_locked

abbrev third_announced : State
third_announced = handle_async ℕ_discrete 0 4 40 (handle_async ℕ_discrete 0 2 20 first_taken)

abbrev first_synced : State
first_synced = finish [] (waiting ∷ []) 1 (itself 1 none) third_announced

abbrev first_sent : State
first_sent = send_event [] (waiting ∷ []) 1 (1 ∷ []) first_synced

abbrev second_locked : State
second_locked = record first_sent { goroutines = locked ∷ []; latest_sync_mu = true }

run : Run ℕ_discrete 0 fresh (4 ∷ 2 ∷ 1 ∷ []) second_locked
unfolding handle_async take_pending finish send_event go ℕ_discrete
run =
    more
      (more
        (more
          (more
            (more
              (more
                (more (more here (announces 1 10 refl))
                  (goes itself [] [] waiting first_locked refl refl))
                (goes itself [] [] locked first_taken refl refl))
              (announces 2 20 refl))
            (announces 4 40 refl))
          (goes itself [] (waiting ∷ []) (handling 1 (some 10)) first_synced refl refl))
        (goes itself [] (waiting ∷ []) (sending 1 (1 ∷ [])) first_sent refl refl))
      (goes itself [] [] waiting second_locked refl refl)

All-IsDefined : All (IsDefined ℕ_discrete 0) (4 ∷ 2 ∷ 1 ∷ [])
unfolding ℕ_discrete
All-IsDefined = (refl, (refl, (refl, tt)))

new_handler-IsSound_example : IsSound ℕ_discrete 0 second_locked
new_handler-IsSound_example =
    new_handler-IsSound ℕ_discrete 0 3 none [] 1 (4 ∷ 2 ∷ 1 ∷ []) second_locked run All-IsDefined

new_handler-goroutines_example : length second_locked.goroutines ≤ 2
new_handler-goroutines_example =
    new_handler-goroutines ℕ_discrete 0 3 none [] 1 (4 ∷ 2 ∷ 1 ∷ []) second_locked run All-IsDefined

taken-latest_example :
    (c : ℕ) × (rest : List ℕ) × (4 ∷ 2 ∷ 1 ∷ [] ≡ c ∷ rest)
    × ((take_pending ℕ_discrete 0 [] [] second_locked).goroutines
        ≡ [] ++ handling c second_locked.pending_syncer ∷ [])
    × ((take_pending ℕ_discrete 0 [] [] second_locked).pending_cid ≡ 0)
unfolding handle_async take_pending finish send_event ℕ_discrete
taken-latest_example =
    taken-latest ℕ_discrete 0 3 none [] 1 (4 ∷ 2 ∷ 1 ∷ []) second_locked [] [] run All-IsDefined
      refl refl

new_handler-Moves_example :
    Moves ℕ_discrete 0 itself second_locked
    ⊎ WaitsToSend ℕ_discrete 0 second_locked
    ⊎ ((second_locked.goroutines ≡ [])
        × ((is_defined ℕ_discrete 0 second_locked.pending_cid ≡ false)
            ⊎ (second_locked.cancelled ≡ true)))
unfolding handle_async take_pending finish send_event ℕ_discrete
new_handler-Moves_example =
    new_handler-Moves ℕ_discrete 0 3 none [] 1 (4 ∷ 2 ∷ 1 ∷ []) second_locked itself run
      All-IsDefined refl

-- An announcement of `cid.Undef` leaves nothing pending, so that the next one starts a third goroutine.
three_goroutines :
    (handle_async ℕ_discrete 0 4 40 (handle_async ℕ_discrete 0 0 20 first_taken)).goroutines
    ≡ handling 1 (some 10) ∷ waiting ∷ waiting ∷ []
unfolding handle_async take_pending ℕ_discrete
three_goroutines = refl
