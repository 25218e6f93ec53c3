-- ===== src/Subscriber/Lifecycle/Ends.antt =====
-- subscriber.go: what `Close` of a subscriber leaves.
use go_legs.Prelude.{
  ℕ, ◌+◌, ◌<◌, ◌≡◌, refl, Bool, true, false, Option, none, some, List, [], ok, arith, returns,
  blocks, ap, Result-cases, inl, inr,
}
use go_legs.Announce.Receiver.{
  Foreign, Moment, Receiver, Announce, Error, closed, handle_announce, close,
}
use go_legs.Announce.Receiver.Options.{new_receiver}
use go_legs.Announce.Receiver.Closing.{close-closed}
use go_legs.Dtsync.Waits.{Waits, new_waits, receive}
use go_legs.Dtsync.Waits.Runs
use go_legs.Dtsync.Waits.Wakes.{dismiss_waits-closes, new_waits-IsSound, receive_of_done}
use go_legs.Dtsync.Transfers.{SyncKey, DoneError, plain_error, DtSync, DtTexts, close_sync}
use go_legs.Dtsync.SetUp.{SetUp, new_sync, new_sync_with_dt}
use go_legs.Subscriber.Async.{SyncFinished}
use go_legs.Subscriber.Events.{Readers, stalled}
use go_legs.Subscriber.Events.Times.{times}
use go_legs.Subscriber.Events.Delivery
use go_legs.Subscriber.Options.{Kinds, Settings, Setting, apply_settings}
use go_legs.Subscriber.Lifecycle.{Whole, new_subscriber, close_parts, do_close, close_subscriber}

-- Close of an open receiver closes its channel `done`.
done-close :
    {Cid Peer Addr Key : Type 0} (env : Foreign Cid Peer Addr Key)
    (r q : Receiver Cid Peer Addr Key) (closes : Bool) (e : Option Error)
    → r.locked ≡ false
    → r.is_closed ≡ false
    → close env closes r ≡ returns e q
    → q.done ≡ true
unfolding close
done-close env r q closes e free live ran = ground arith

module _ {Cid Addr Key : Type 0} (World : Type 0) (K : Kinds)
    (same_key : Discrete (SyncKey Cid K.Peer)) (env : Foreign Cid K.Peer Addr Key) where
  -- A subscriber that is open, and whose parts are sound.
  pub record IsOpen (s : Whole Cid Addr Key World K) : Type 0 where
    pub not_run : s.close_ran ≡ false
    pub events_open : s.in_events_closed ≡ false
    pub unlocked : s.receiver.locked ≡ false
    pub receiver_open : s.receiver.is_closed ≡ false
    pub waits_sound : Runs.IsSound same_key s.dt_sync.waits
    pub readers_sound : Delivery.IsSound s.readers
    pub readers_unlocked : s.readers.out_events_mutex ≡ false

  -- What a subscriber is like behind `Close`: no reader is listed, the channels of those that were are
  -- closed, a waiter on any channel of a sync in progress gets an error or nil, an announcement is
  -- answered by ErrClosed, and another Close does nothing.
  pub record IsShut (s t : Whole Cid Addr Key World K) : Type 0 where
    pub no_readers : t.readers.out_events_chans ≡ []
    pub readers_closed :
        (c : ℕ)
        → Delivery.bit (t.readers.is_closed c)
          ≡ Delivery.bit (s.readers.is_closed c) + times c s.readers.out_events_chans
    pub waits_done :
        (c : ℕ)
        → c < s.dt_sync.waits.next_done
        → (r : Option (DoneError Cid)) × (u : Waits (SyncKey Cid K.Peer) (DoneError Cid)) × (receive
              c t.dt_sync.waits
            ≡ returns r u)
    pub announcements_closed :
        (now : Moment) (amsg : Announce Cid K.Peer Addr) (is_direct : Bool)
        → handle_announce env now amsg is_direct t.receiver ≡ returns (some closed) t.receiver
    pub watch_over : t.watch_ended ≡ true
    pub events_over : t.in_events_closed ≡ true
    pub again :
        (texts : DtTexts) (closes : Bool) (dt_close : Option (Option (List ℕ))) (running : ℕ)
        → close_subscriber World K env texts closes dt_close running t ≡ returns none t

  close_sync-returns :
      (texts : DtTexts) (dt_close : Option (Option (List ℕ)))
      (d : DtSync Cid K.Peer K.Limiter World)
      → Runs.IsSound same_key d.waits
      → (e : Option (List ℕ)) × (u : DtSync Cid K.Peer K.Limiter World) × (close_sync texts dt_close
            d
          ≡ returns e u)
        × ((c : ℕ) → c < d.waits.next_done → u.waits.is_done c ≡ true)
  unfolding close_sync
  close_sync-returns texts dt_close d sound =
      let (w, ran, still, done) =
        dismiss_waits-closes same_key d.waits (plain_error texts.closed_text) sound in
      (
        elim dt_close [ none ↦ none | some e ↦ e ],
        record d { waits = w },
        rw (close_sync, ran) refl,
        done,
      )

  -- If a subscriber is open, the mutexes of its receiver and of its readers are free, its parts are
  -- sound, and no asynchronous sync runs, Close returns: it does not wait for ever or panic. But while a
  -- round of distributeEvents waits for a reader, Close waits as well. Once it has returned, no reader of
  -- finished syncs is listed, and the channel of each reader that was listed is closed, and no other; a
  -- waiter on the channel of any sync in progress gets an error or nil; every announcement is answered
  -- by ErrClosed; `watch` and the distribution of events have ended; and another Close returns nil and
  -- changes nothing.
  pub close_subscriber-IsShut :
      (texts : DtTexts) (closes : Bool) (dt_close : Option (Option (List ℕ)))
      (s : Whole Cid Addr Key World K)
      → IsOpen s
      → (e : Option (List ℕ)) × (t : Whole Cid Addr Key World K) × (close_subscriber World K env
            texts closes dt_close 0 s
          ≡ returns e t)
        × IsShut s t
        × ((event : SyncFinished Cid K.Peer)
            → close_subscriber World K env texts closes dt_close 0
                (record s { readers = stalled event s.readers })
              ≡ blocks)
  unfolding close_subscriber do_close close_parts
  close_subscriber-IsShut texts closes dt_close s h =
      let (x, r, shut, refused, _) =
        close-closed env s.receiver closes h.unlocked h.receiver_open in
      let (e, d, ended, done) = close_sync-returns texts dt_close s.dt_sync h.waits_sound in
      let (q, dismissed, _, none_left, each, waits) =
        Delivery.dismiss_readers-closes s.readers h.readers_sound h.readers_unlocked in
      let r_done = done-close env s.receiver r closes x h.unlocked h.receiver_open shut in
      let t : Whole Cid Addr Key World K = record s {
        close_ran = true;
        closing = true;
        receiver = r;
        watch_ended = true;
        dt_sync = d;
        readers = q;
        in_events_closed = true;
      } in
      let ran : close_subscriber World K env texts closes dt_close 0 s ≡ returns e t =
        rw
          (
            close_subscriber, h.not_run, do_close, shut, r_done, close_parts, ended, dismissed,
            h.events_open,
          )
          refl in
      (
        e,
        t,
        ran,
        record {
          no_readers = none_left;
          readers_closed = each;
          waits_done = λ c lt. receive_of_done d.waits c (done c lt);
          announcements_closed = refused;
          watch_over = refl;
          events_over = refl;
          again = λ texts closes dt_close running. refl;
        },
        λ event.
            rw
              (close_subscriber, h.not_run, do_close, shut, r_done, close_parts, ended, waits event)
              refl,
      )

  -- A new subscriber is open.
  pub new_subscriber-IsOpen :
      (initial : Settings K) (has_ds : Bool) (u : SetUp) (w : World)
      (has_peerstore makes subscribes : Bool) (host_id : K.Peer) (opts : List (Setting K))
      (s : Whole Cid Addr Key World K)
      → new_subscriber Cid Addr Key World K initial has_ds u w has_peerstore makes subscribes
          host_id opts
        ≡ ok s
      → IsOpen s
  unfolding new_subscriber new_receiver new_sync new_sync_with_dt times
  new_subscriber-IsOpen initial has_ds u w has_peerstore makes subscribes host_id opts s made =
      elim (Result-cases (apply_settings K opts initial)) [
        | inr (x, bad) ↦ absurd (ground (arith, bad))
        | inl (c, applied) ↦
            let fresh_waits : s.dt_sync.waits ≡ new_waits = ground (arith, applied) in
            let fresh_readers : s.readers ≡ record {
              next_chan = 0;
              out_events_chans = [];
              buffer = λ c. [];
              is_closed = λ c. false;
              out_events_mutex = false;
            } =
              ground (arith, applied) in
            record {
              not_run = ground (arith, applied);
              events_open = ground (arith, applied);
              unlocked = ground (arith, applied);
              receiver_open = ground (arith, applied);
              waits_sound = rw fresh_waits (new_waits-IsSound same_key);
              readers_sound = rw fresh_readers (λ c. ground arith);
              readers_unlocked =
                  ap (λ (r : Readers (SyncFinished Cid K.Peer)). r.out_events_mutex) fresh_readers;
            }
      ]
