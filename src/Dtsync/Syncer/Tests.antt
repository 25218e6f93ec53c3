-- ===== src/Dtsync/Syncer/Tests.antt =====
-- The properties of dtsync at concrete syncs: CIDs and peers are numbers, and the CID n names the
-- CID n - 1 that comes after it.
use go_legs.Prelude.{
  ℕ, ◌-◌, ◌+◌, ◌<◌, ◌≡◌, refl, ap, sym, Bool, true, false, if◌then◌else◌, ltb, Option, none, some,
  List, [], ◌∷◌, ◌++◌, ℕ_discrete, arith, Result, ok, err, Outcome, returns, blocks, panics, inl,
  inr, ◌⊎◌, Option-cases, subst,
}
use go_legs.Traversal.{load, finished}
use go_legs.Dtsync.Waits.{
  Waits, new_waits, entries_of, find, signal_sync_done, notify_on_sync_done, receive, dismiss_waits,
}
use go_legs.Dtsync.Waits.Keys.{find-erase_self, find-erase_ne, entries_of-erase}
use go_legs.Dtsync.Waits.Runs.{
  Calls, here, more, signals, notifies, IsSound, signal_of_listed, signalled,
}
use go_legs.Dtsync.Waits.Wakes.{new_waits-IsSound, Signals, Calls-wake, signal-Signals}
use go_legs.Dtsync.Transfers.{
  DoneError, plain_error, rate_limit_error, SyncKey, DtSync, DtTexts, signal_done, set_rate_limiter,
  clear_rate_limiter, incoming_block, on_event, failed_transfer, hit_rate_limit,
}
use go_legs.Dtsync.Transfers.Texts.{index_of, has_suffix}
use go_legs.Dtsync.Transfers.Stops.{on_event-incoming_block}
use go_legs.Dtsync.Syncer.{DtSyncer, SyncerError, sync_pull}
use go_legs.Dtsync.Syncer.Ends.{listed-open}
use go_legs.Dtsync.Syncer.Waiting.{IsPartner, IsAlone, channel_of}
use go_legs.Dtsync.Syncer.Total.{sync_pull-returns, IsCleared}

abbrev State : Type 0
State = DtSync ℕ ℕ ℕ ℕ

abbrev same_key : Discrete (SyncKey ℕ ℕ)
same_key (a, b) (c, d) = elim (ℕ_discrete a c) [
  | no n ↦ no (λ r. n (ap (λ (x : ℕ × ℕ). x.0) r))
  | yes e ↦ elim (ℕ_discrete b d) [
    | no n ↦ no (λ r. n (ap (λ (x : ℕ × ℕ). x.1) r))
    | yes q ↦ yes (λ i. (e i, q i))
  ]
]

-- The transfer of a block but the last hits a rate limit at the next one.
abbrev ended : ℕ → Option (DoneError ℕ)
ended c = if ltb 0 c then some (rate_limit_error [] (c - 1)) else none

abbrev keep_waits : State → Outcome (Waits (SyncKey ℕ ℕ) (DoneError ℕ)) Bool → State
keep_waits s (returns found w) = record s { waits = w }
keep_waits s blocks = s
keep_waits s panics = s

abbrev syncer : DtSyncer ℕ ℕ ℕ ℕ (Unit {0}) ℕ
syncer = record {
  same_key = same_key;
  same_peer = ℕ_discrete;
  peer_id = 7;
  rate_limiter = some 1;
  has_hook = true;
  allow = λ l w. (true, w + 1);
  context_text = [];
  read = λ c. none;
  walk = λ n c. some (load c (λ b. finished));
  open_error = λ c s. none;
  meanwhile = λ c s. keep_waits s (signal_sync_done same_key (c, 7) (ended c) s.waits);
  is_cancelled = λ c s. false;
  is_wait_cancelled = λ c s. false;
}

abbrev start : State
start = record { waits = new_waits; rate_limiters = λ p. none; hooked = []; world = 0 }

-- The others signal the channel of the CID, if it has one.
meanwhile_absent :
    (c : ℕ) (s : State)
    → IsSound same_key s.waits
    → channel_of syncer c s ≡ none
    → syncer.meanwhile c s ≡ s
meanwhile_absent c s h absent =
    ap (keep_waits s) (signal-Signals same_key s.waits (c, 7) (ended c) none h absent)

meanwhile_listed :
    (c ch : ℕ) (s : State)
    → IsSound same_key s.waits
    → channel_of syncer c s ≡ some ch
    → syncer.meanwhile c s ≡ record s { waits = signalled same_key (c, 7) ch (ended c) s.waits }
meanwhile_listed c ch s h listed =
    ap (keep_waits s) (signal_of_listed same_key s.waits (c, 7) ch (ended c) h listed).0

meanwhile-Calls :
    (c : ℕ) (s : State)
    → IsSound same_key s.waits
    → Calls same_key s.waits (syncer.meanwhile c s).waits
meanwhile-Calls c s h = elim (Option-cases (channel_of syncer c s)) [
  | inl absent ↦
      subst (λ (t : State). Calls same_key s.waits t.waits) (sym (meanwhile_absent c s h absent))
        here
  | inr (ch, listed) ↦
      subst (λ (t : State). Calls same_key s.waits t.waits) (sym (meanwhile_listed c ch s h listed))
        (more here (
          signals (c, 7) (ended c) true
            (signal_of_listed same_key s.waits (c, 7) ch (ended c) h listed).0))
]

abbrev RemovesOnly : ℕ → State → State → Type 0
RemovesOnly d s t = (channel_of syncer d t ≡ none) ⊎ (channel_of syncer d t ≡ channel_of syncer d s)

meanwhile-RemovesOnly :
    (c d : ℕ) (s : State) → IsSound same_key s.waits → RemovesOnly d s (syncer.meanwhile c s)
meanwhile-RemovesOnly c d s h = elim (Option-cases (channel_of syncer c s)) [
  | inl absent ↦ subst (RemovesOnly d s) (sym (meanwhile_absent c s h absent)) (inr refl)
  | inr (ch, listed) ↦ subst (RemovesOnly d s) (sym (meanwhile_listed c ch s h listed)) (
      let m = entries_of s.waits.sync_done_chans in
      let others = entries_of-erase same_key (c, 7) ch m listed in
      elim (same_key (d, 7) (c, 7)) [
        | yes e ↦ inl (rw (others, e) (find-erase_self same_key (c, 7) m))
        | no ne ↦ inr (rw others (find-erase_ne same_key (d, 7) (c, 7) m ne))
      ])
]

meanwhile-ends :
    (c ch : ℕ) (s : State)
    → IsSound same_key s.waits
    → channel_of syncer c s ≡ some ch
    → false ≡ false
    → (syncer.meanwhile c s).waits.is_done ch ≡ true
meanwhile-ends c ch s h listed going =
    subst (λ (t : State). t.waits.is_done ch ≡ true) (sym (meanwhile_listed c ch s h listed))
      (ground arith)

meanwhile-stops :
    (c d ch : ℕ) (msg : List ℕ) (rest : List (DoneError ℕ)) (s : State)
    → IsSound same_key s.waits
    → channel_of syncer c s ≡ some ch
    → (syncer.meanwhile c s).waits.sent ch ≡ rate_limit_error msg d ∷ rest
    → (d < c) × (l : ℕ) × (syncer.rate_limiter ≡ some l)
meanwhile-stops c d ch msg rest s h listed full =
    let got =
      subst (λ (t : State). t.waits.sent ch ≡ rate_limit_error msg d ∷ rest)
        (meanwhile_listed c ch s h listed) full in
    let (lt, still_open, empty) = listed-open same_key s.waits (c, 7) ch h listed in
    (ground (arith, got, empty), 1, refl)

syncer-IsPartner : IsPartner syncer (λ c. c)
syncer-IsPartner = record {
  runs = meanwhile-Calls;
  alone = meanwhile-RemovesOnly;
  ends = meanwhile-ends;
  stops = meanwhile-stops;
}

-- Three rounds, of which two hit the rate limit.
sync_pull-returns_example :
    (e : Option (SyncerError ℕ)) × (t : State) × (sync_pull syncer 3 2 tt start
      ≡ some (returns e t))
    × IsSound same_key t.waits
    × IsAlone syncer t
    × IsCleared syncer (some 1) t
unfolding find
sync_pull-returns_example =
    sync_pull-returns syncer syncer-IsPartner 3 2 tt start (omega arith)
      (new_waits-IsSound same_key) (λ d. refl)

sync_pull_runs :
    (t : State) × (sync_pull syncer 3 2 tt start ≡ some (returns none t))
    × (t.world ≡ 2)
    × (t.waits.next_done ≡ 3)
unfolding sync_pull receive signal_sync_done notify_on_sync_done ℕ_discrete set_rate_limiter
    clear_rate_limiter
sync_pull_runs = (_, refl, refl, refl)

abbrev two_listed : Waits (SyncKey ℕ ℕ) (DoneError ℕ)
unfolding notify_on_sync_done
two_listed =
    (notify_on_sync_done same_key (3, 1) (notify_on_sync_done same_key (4, 1) new_waits).1).1

two_listed-Calls : Calls same_key new_waits two_listed
unfolding two_listed find ℕ_discrete
two_listed-Calls = more (more here (notifies (4, 1) refl)) (notifies (3, 1) refl)

Calls-wake_example :
    Signals same_key two_listed (3, 1) (some (plain_error [])) (some 1)
    × (t : Waits (SyncKey ℕ ℕ) (DoneError ℕ)) × (u : Waits (SyncKey ℕ ℕ) (DoneError ℕ))
    × (r : Option (DoneError ℕ)) × (dismiss_waits (plain_error []) two_listed ≡ returns tt t)
    × (receive 0 t ≡ returns r u)
unfolding two_listed find ℕ_discrete
Calls-wake_example =
    Calls-wake same_key two_listed (3, 1) (some (plain_error [])) 0 (plain_error [])
      two_listed-Calls (omega arith)

-- Texts of CIDs up to nine.
abbrev digit_text : ℕ → List ℕ
digit_text c = (c + 48) ∷ []

abbrev read_digit : List ℕ → Result (List ℕ) ℕ
read_digit (d ∷ []) = ok (d - 48)
read_digit _ = err []

abbrev limiter_set : State
limiter_set = record start { rate_limiters = λ p. some 1 }

abbrev no_texts : DtTexts
no_texts = record { cancelled_text = []; failed_text = []; closed_text = [] }

-- The message "a: hitRateLimit(5)!".
on_event-incoming_block_example :
    (limiter_set.hooked ≡ [])
    × (on_event same_key no_texts read_digit failed_transfer
          (97 ∷ 58 ∷ 32 ∷ 104 ∷ 105 ∷ 116 ∷ 82 ∷ 97 ∷ 116 ∷ 101 ∷ 76 ∷ 105 ∷ 109 ∷ 105 ∷ 116 ∷ 40
            ∷ 53 ∷ 41 ∷ 33 ∷ [])
          (5, 7)
          start
        ≡ signal_done same_key
            (5, 7)
            (some (
              rate_limit_error
                (97 ∷ 58 ∷ 32 ∷ 104 ∷ 105 ∷ 116 ∷ 82 ∷ 97 ∷ 116 ∷ 101 ∷ 76 ∷ 105 ∷ 109 ∷ 105 ∷ 116
                  ∷ 40 ∷ 53 ∷ 41 ∷ 33 ∷ [])
                5))
            start)
unfolding incoming_block index_of has_suffix
on_event-incoming_block_example =
    on_event-incoming_block same_key no_texts read_digit digit_text (λ l w. (false, w)) 7 3 5
      limiter_set limiter_set (hit_rate_limit ++ 40 ∷ (digit_text 5 ++ 41 ∷ [])) (97 ∷ 58 ∷ 32 ∷ [])
      (33 ∷ []) refl refl refl refl _ refl refl (5, 7) start
