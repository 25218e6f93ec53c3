-- ===== src/Announce/Receiver/Invariant.antt =====
-- announce/receiver.go: what holds of a receiver after any sequence of calls and messages.
use go_legs.Prelude.{
  ℕ, ◌≡◌, refl, sym, ap, subst, ◌∙◌, Bool, false, Option, List, [], ok, returns, arith,
}
use go_legs.Announce.Lru.{Lru, new_lru}
use go_legs.Announce.Lru.Refines.{IsValid, new_lru-IsValid}
use go_legs.Announce.Receiver.{
  Foreign, Announce, Moment, Error, announce_cache_size, handle_announce, next, close,
  set_allow_peer, uncache_cid,
}
use go_legs.Announce.Receiver.Options.{ConfigOption, new_receiver}
use go_legs.Announce.Receiver.Watch.{on_message, on_read_error}
use go_legs.Announce.Receiver.Sound.{
  State, IsSound, handle_announce-IsSound, next-IsSound, close-IsSound, on_message-IsSound,
  on_read_error-IsSound, uncache_cid-IsSound, set_allow_peer-IsSound,
}

module _ {Cid Peer Addr Key : Type 0} (env : Foreign Cid Peer Addr Key) where
  -- One call that returns, or one round of the `watch` loop while it runs.
  pub data Step (r s : State env) : Type 0 where
    announces :
        (now : Moment) (amsg : Announce Cid Peer Addr) (direct : Bool) (e : Option Error)
        → handle_announce env now amsg direct r ≡ returns e s
        → Step r s
    takes :
        (now : Moment) (a : Option (Announce Cid Peer Addr) × Option Error)
        → next env now r ≡ returns a s
        → Step r s
    closes : (b : Bool) (e : Option Error) → close env b r ≡ returns e s → Step r s
    allows : (allow : Option (Peer → Bool)) → set_allow_peer env allow r ≡ returns tt s → Step r s
    uncaches : (c : Cid) → uncache_cid env c r ≡ returns tt s → Step r s
    hears :
        (now : Moment) (from msg_data : List ℕ)
        → r.watch_done ≡ false
        → on_message env now from msg_data r ≡ returns tt s
        → Step r s
    fails :
        (cancelled resubscribes : Bool)
        → r.watch_done ≡ false
        → on_read_error env cancelled resubscribes r ≡ returns tt s
        → Step r s

  pub data Reach (r : State env) : State env → Type 0 where
    here : Reach r r
    more : {s t : State env} → Reach r s → Step s t → Reach r t

  Step-IsSound : {r s : State env} → Step r s → IsSound env r → IsSound env s
  Step-IsSound {r} {s} (announces now amsg direct e p) v =
      handle_announce-IsSound env now amsg direct e r s p v
  Step-IsSound {r} {s} (takes now a p) v = next-IsSound env now a r s p v
  Step-IsSound {r} {s} (closes b e p) v = close-IsSound env b e r s p v
  Step-IsSound {r} {s} (allows allow p) v = set_allow_peer-IsSound env allow r s p v
  Step-IsSound {r} {s} (uncaches c p) v = uncache_cid-IsSound env c r s p v
  Step-IsSound {r} {s} (hears now from msg_data _ p) v =
      on_message-IsSound env now from msg_data r s p v
  Step-IsSound {r} {s} (fails cancelled resubscribes running p) v =
      on_read_error-IsSound env cancelled resubscribes r s running p v

  Reach-IsSound : {r s : State env} → Reach r s → IsSound env r → IsSound env s
  Reach-IsSound here v = v
  Reach-IsSound (more path step) v = Step-IsSound step (Reach-IsSound path v)

  new_receiver-fresh :
      {Topic : Type 0} (makes subscribes : Bool) (host_id : Peer)
      (opts : List (ConfigOption Peer Topic)) (r : State env)
      → new_receiver Cid Addr Key makes subscribes host_id opts ≡ ok r
      → (r.announce_cache ≡ new_lru announce_cache_size)
        × (r.out_chan ≡ [])
        × (r.is_closed ≡ false)
        × (r.done ≡ false)
  unfolding new_receiver
  new_receiver-fresh makes subscribes host_id opts r e = ground arith

  -- Whatever is called and heard, a new receiver stays sound: it remembers at most 64 CIDs, each
  -- once, holds at most one announcement, tells Next that it is closed exactly if it is, and once
  -- closed listens no more.
  pub new_receiver-IsSound :
      {Topic : Type 0} (makes subscribes : Bool) (host_id : Peer)
      (opts : List (ConfigOption Peer Topic)) (r s : State env)
      → new_receiver Cid Addr Key makes subscribes host_id opts ≡ ok r
      → Reach r s
      → IsSound env s
  new_receiver-IsSound makes subscribes host_id opts r s e path =
      let (cache, room, live, stopped) = new_receiver-fresh makes subscribes host_id opts r e in
      Reach-IsSound path (record {
        cache = record {
          valid = subst (IsValid env.same_key) (sym cache) (new_lru-IsValid env.same_key _);
          size = ap (λ (c : Lru Key). c.max) cache ∙ unfold new_lru in refl;
        };
        room = rw room (omega arith);
        stopped = stopped ∙ sym live;
        silent = λ shut. cc;
      })
