-- ===== src/Announce/Receiver/Sound.antt =====
-- announce/receiver.go: the invariant of a receiver, and that every call and every message keep it.
use go_legs.Prelude.{
  ℕ, ◌≤◌, ◌≡◌, refl, sym, ap, subst, ◌∙◌, if◌then◌else◌, Bool, true, false, Option, none, some,
  List, [], ◌∷◌, length, returns, and_then-eq-returns, arith, Bool-cases, inl, inr, length-append,
  ◌&&◌, Option-cases, Result-cases,
}
use go_legs.Announce.Lru.{Lru, remove_key}
use go_legs.Announce.Lru.Refines.{IsValid, remove_key-refines, max-remove_key}
use go_legs.Announce.Receiver.{
  Foreign, Announce, Receiver, Moment, Error, closed, announce_check, pass_on, republish, send_out,
  after_check, handle_announce, filtered, next, close, set_allow_peer, uncache_cid,
}
use go_legs.Announce.Receiver.Watch.{on_message, ignoring, on_read_error, message_addrs, origin}
use go_legs.Announce.Receiver.Closing.{closed_state}
use go_legs.Announce.Gossip.{unmarshal}
use go_legs.Announce.Receiver.Checks.{HasCache, announce_check-Checked}

module _ {Cid Peer Addr Key : Type 0} (env : Foreign Cid Peer Addr Key) where
  abbrev pub State : Type 0
  State = Receiver Cid Peer Addr Key

  -- The cache is well formed and of its size, the channel holds at most one announcement, and a
  -- closed receiver has told `Next` and `watch` to stop and has no subscription.
  pub record IsSound (r : State) : Type 0 where
    pub cache : HasCache env r
    pub room : length r.out_chan ≤ 1
    pub stopped : r.done ≡ r.is_closed
    pub silent : r.is_closed ≡ true → (r.watch_done ≡ true) × (r.subscribed ≡ false)

  -- The fields that a call leaves alone, but for the channel.
  record Same (r s : State) : Type 0 where
    cache : s.announce_cache ≡ r.announce_cache
    done : s.done ≡ r.done
    is_closed : s.is_closed ≡ r.is_closed
    watch_done : s.watch_done ≡ r.watch_done
    subscribed : s.subscribed ≡ r.subscribed
    room : length r.out_chan ≤ 1 → length s.out_chan ≤ 1

  eq-IsSound : (r s : State) → r ≡ s → IsSound r → IsSound s
  eq-IsSound r s e v = subst IsSound e v

  Same-IsSound : {r s : State} → Same r s → IsSound r → IsSound s
  Same-IsSound {r} {s} k v = record {
    cache = record {
      valid = subst (IsValid env.same_key) (sym k.cache) v.cache.valid;
      size = ap (λ (c : Lru Key). c.max) k.cache ∙ v.cache.size;
    };
    room = k.room v.room;
    stopped = k.done ∙ v.stopped ∙ sym k.is_closed;
    silent = λ shut. ground (arith, v.silent (sym k.is_closed ∙ shut), k);
  }

  republish-Same :
      (now : Moment) (amsg : Announce Cid Peer Addr) (r s : State)
      → republish env now amsg r ≡ returns tt s
      → Same r s
  unfolding republish
  republish-Same now amsg r s e = ground arith

  send_out-Same :
      (now : Moment) (amsg : Announce Cid Peer Addr) (e : Option Error) (r s : State)
      → send_out env now amsg r ≡ returns e s
      → Same r s
  unfolding send_out
  send_out-Same now amsg e r s p = ground (arith, length-append r.out_chan (amsg ∷ []))

  Same-trans : {r s t : State} → Same r s → Same s t → Same r t
  Same-trans a b = record {
    cache = b.cache ∙ a.cache;
    done = b.done ∙ a.done;
    is_closed = b.is_closed ∙ a.is_closed;
    watch_done = b.watch_done ∙ a.watch_done;
    subscribed = b.subscribed ∙ a.subscribed;
    room = λ h. b.room (a.room h);
  }

  first-Same :
      (now : Moment) (amsg : Announce Cid Peer Addr) (b : Bool) (r s : State)
      → (if b then republish env now amsg r else returns tt r) ≡ returns tt s
      → Same r s
  first-Same now amsg true r s e = republish-Same now amsg r s e
  first-Same now amsg false r s e = ground arith

  pass_on-Same :
      (now : Moment) (amsg : Announce Cid Peer Addr) (direct : Bool) (e : Option Error)
      (r s : State)
      → pass_on env now amsg direct r ≡ returns e s
      → Same r s
  unfolding pass_on
  pass_on-Same now amsg direct e r s p =
      let (u, m, q, f) =
        and_then-eq-returns (if direct && r.resend then republish env now amsg r else returns tt r)
          _ p in
      Same-trans (first-Same now amsg (direct && r.resend) r m q) (send_out-Same now amsg e m s f)

  after_check-IsSound :
      (now : Moment) (amsg : Announce Cid Peer Addr) (direct : Bool) (a e : Option Error)
      (r s : State)
      → after_check env now amsg direct a r ≡ returns e s
      → IsSound r
      → IsSound s
  unfolding after_check
  after_check-IsSound now amsg direct none e r s p v =
      Same-IsSound (pass_on-Same now (filtered env r.filter_ips amsg) direct e r s p) v
  after_check-IsSound now amsg direct (some closed) e r s p v =
      let q : r ≡ s = ground arith in subst IsSound q v
  after_check-IsSound now amsg direct (some _) e r s p v =
      let q : r ≡ s = ground arith in subst IsSound q v

  announce_check-IsSound :
      (amsg : Announce Cid Peer Addr) (a : Option Error) (r s : State)
      → announce_check env amsg r ≡ returns a s
      → IsSound r
      → IsSound s
  announce_check-IsSound amsg a r s p v = elim (Bool-cases r.locked) [
    | inl held ↦ absurd (unfold announce_check in ground (arith, held))
    | inr free ↦
        let (cache, (step, valid, size, kept)) = announce_check-Checked env r amsg v.cache free in
        let q : record r { announce_cache = cache } ≡ s = ground (arith, step) in
        subst IsSound q (record {
          cache = record { valid = valid; size = size };
          room = v.room;
          stopped = v.stopped;
          silent = v.silent;
        })
  ]

  pub handle_announce-IsSound :
      (now : Moment) (amsg : Announce Cid Peer Addr) (direct : Bool) (e : Option Error)
      (r s : State)
      → handle_announce env now amsg direct r ≡ returns e s
      → IsSound r
      → IsSound s
  unfolding handle_announce
  handle_announce-IsSound now amsg direct e r s p v =
      let (a, m, q, f) = and_then-eq-returns (announce_check env amsg r) _ p in
      after_check-IsSound now amsg direct a e m s f (announce_check-IsSound amsg a r m q v)

  pub next-IsSound :
      (now : Moment) (a : Option (Announce Cid Peer Addr) × Option Error) (r s : State)
      → next env now r ≡ returns a s
      → IsSound r
      → IsSound s
  unfolding next
  next-IsSound now a r s p v = Same-IsSound (ground arith) v

  pub close-IsSound :
      (b : Bool) (e : Option Error) (r s : State)
      → close env b r ≡ returns e s
      → IsSound r
      → IsSound s
  unfolding close
  close-IsSound b e r s p v = elim (Bool-cases r.locked) [
    | inl held ↦ absurd (ground (arith, held))
    | inr free ↦ elim (Bool-cases r.is_closed) [
      | inl shut ↦ let k : Same r s = ground (arith, free, shut) in Same-IsSound k v
      | inr live ↦
          let q : closed_state env r ≡ s = ground (arith, free, live) in
          subst IsSound q (record {
            cache = record { valid = v.cache.valid; size = v.cache.size };
            room = v.room;
            stopped = refl;
            silent = λ _. (refl, refl);
          })
    ]
  ]

  pub on_message-IsSound :
      (now : Moment) (from msg_data : List ℕ) (r s : State)
      → on_message env now from msg_data r ≡ returns tt s
      → IsSound r
      → IsSound s
  unfolding on_message
  on_message-IsSound now from msg_data r s p v = elim (Option-cases (env.peer_from_bytes from)) [
    | inl unknown ↦ eq-IsSound r s (ground (arith, unknown)) v
    | inr (src, h₁) ↦ elim (Result-cases (unmarshal env.cbg msg_data)) [
      | inr (bad, h₂) ↦ eq-IsSound r s (ground (arith, h₁, h₂)) v
      | inl ((m, rest), h₂) ↦ elim (Option-cases (message_addrs env m)) [
        | inl bad ↦ eq-IsSound r s (ground (arith, h₁, h₂, bad)) v
        | inr (addrs, h₃) ↦ elim (Option-cases (origin env r.host_id src m.orig_peer)) [
          | inl ignored ↦ eq-IsSound r s (ground (arith, h₁, h₂, h₃, ignored)) v
          | inr (peer, h₄) ↦
              let amsg : Announce Cid Peer Addr = record {
                cid = m.cid;
                peer = peer;
                addrs = addrs;
              } in
              let step : ignoring (handle_announce env now amsg false r) ≡ returns tt s =
                ground (arith, h₁, h₂, h₃, h₄) in
              let (e, u, q, f) =
                and_then-eq-returns (handle_announce env now amsg false r) _ step in
              let same : u ≡ s = ground arith in
              subst IsSound same (handle_announce-IsSound now amsg false e r u q v)
        ]
      ]
    ]
  ]

  running-live : (r : State) → IsSound r → r.watch_done ≡ false → r.is_closed ≡ false
  running-live r v running = elim (Bool-cases r.is_closed) [
    | inl shut ↦ absurd (ground (arith, v.silent shut))
    | inr live ↦ live
  ]

  same_cache :
      (r s : State) (cancelled resubscribes : Bool)
      → on_read_error env cancelled resubscribes r ≡ returns tt s
      → r.announce_cache ≡ s.announce_cache
  unfolding on_read_error
  same_cache r s cancelled resubscribes p = ground arith

  pub on_read_error-IsSound :
      (cancelled resubscribes : Bool) (r s : State)
      → r.watch_done ≡ false
      → on_read_error env cancelled resubscribes r ≡ returns tt s
      → IsSound r
      → IsSound s
  unfolding on_read_error
  on_read_error-IsSound cancelled resubscribes r s running p v =
      let live : r.is_closed ≡ false = running-live r v running in
      record {
        cache = record {
          valid =
              subst (IsValid env.same_key) (same_cache r s cancelled resubscribes p) v.cache.valid;
          size = ground arith;
        };
        room = ground arith;
        stopped = ground (arith, v.stopped);
        silent = λ shut. absurd (ground arith);
      }

  pub uncache_cid-IsSound :
      (c : Cid) (r s : State) → uncache_cid env c r ≡ returns tt s → IsSound r → IsSound s
  unfolding uncache_cid
  uncache_cid-IsSound c r s p v = elim (Bool-cases r.locked) [
    | inl held ↦ absurd (ground (arith, held))
    | inr free ↦
        let key = env.cid_string c in
        let cache = (remove_key env.same_key r.announce_cache key).0 in
        let (valid, _, _) = remove_key-refines env.same_key r.announce_cache key v.cache.valid in
        let q : record r { announce_cache = cache } ≡ s = ground (arith, free) in
        subst IsSound q (record {
          cache = record {
            valid = valid;
            size = max-remove_key env.same_key r.announce_cache key ∙ v.cache.size;
          };
          room = v.room;
          stopped = v.stopped;
          silent = v.silent;
        })
  ]

  pub set_allow_peer-IsSound :
      (allow : Option (Peer → Bool)) (r s : State)
      → set_allow_peer env allow r ≡ returns tt s
      → IsSound r
      → IsSound s
  unfolding set_allow_peer
  set_allow_peer-IsSound allow r s p v = Same-IsSound (ground arith) v
