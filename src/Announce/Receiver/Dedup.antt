-- ===== src/Announce/Receiver/Dedup.antt =====
-- announce/receiver.go: an announcement of a CID that was seen is not passed on again.
use go_legs.Prelude.{
  ◌≡◌, refl, contains-remove_ne, sym, subst, ap, ◌∙◌, if◌then◌else◌, Bool, true, false, not, Option,
  none, some, [], ◌∷◌, ◌++◌, ite, remove, contains, returns, arith, take-cons, contains-remove_self,
  is_none, contains_head,
}
use go_legs.Announce.Lru.{Lru, remove_key}
use go_legs.Announce.Lru.Nodes.{values}
use go_legs.Announce.Lru.Refines.{IsValid, remove_key-refines, max-remove_key}
use go_legs.Announce.Receiver.{
  Foreign, Announce, Receiver, Moment, Error, closed, source_not_allowed, already_seen,
  context_done, topic_close_failed, is_allowed, announce_cache_size, pass_on, announce_check,
  handle_announce, republish, send_out, after_check, uncache_cid, filtered,
}
use go_legs.Announce.Receiver.Checks.{HasCache, seen, verdict, seen_after, announce_check-Checked}

module _ {Cid Peer Addr Key : Type 0} (env : Foreign Cid Peer Addr Key) where
  abbrev State : Type 0
  State = Receiver Cid Peer Addr Key

  -- Two states that differ in the channel and the messages published, if at all.
  record Keeps (r s : State) : Type 0 where
    cache : s.announce_cache ≡ r.announce_cache
    lock : s.locked ≡ r.locked
    shut : s.is_closed ≡ r.is_closed
    allow : s.allow_peer ≡ r.allow_peer

  republish-Keeps :
      (now : Moment) (amsg : Announce Cid Peer Addr) (r s : State)
      → republish env now amsg r ≡ returns tt s
      → Keeps r s
  unfolding republish
  republish-Keeps now amsg r s e = ground arith

  send_out-Keeps :
      (now : Moment) (amsg : Announce Cid Peer Addr) (r s : State) (e : Option Error)
      → send_out env now amsg r ≡ returns e s
      → Keeps r s × (s.out_chan ≡ (if is_none e then r.out_chan ++ amsg ∷ [] else r.out_chan))
  unfolding send_out
  send_out-Keeps now amsg r s e p = ground arith

  pass_on-Keeps :
      (now : Moment) (amsg : Announce Cid Peer Addr) (direct : Bool) (r s : State)
      (e : Option Error)
      → pass_on env now amsg direct r ≡ returns e s
      → Keeps r s
  unfolding pass_on
  pass_on-Keeps now amsg direct r s e p = ground arith

  -- Whichever announcement of the CID came last, the CID is seen.
  contains-seen_after :
      (r : State) (amsg : Announce Cid Peer Addr)
      → r.is_closed ≡ false
      → is_allowed env r.allow_peer amsg.peer ≡ true
      → contains env.same_key (env.cid_string amsg.cid) (seen_after env r amsg) ≡ true
  contains-seen_after r amsg live allowed =
      let key = env.cid_string amsg.cid in
      rw
        (
          live,
          allowed,
          take-cons announce_cache_size key (remove env.same_key key (seen env r)) (omega arith),
        )
        (contains_head env.same_key key _)

  after_check-Keeps :
      (now : Moment) (amsg : Announce Cid Peer Addr) (direct : Bool) (a : Option Error)
      (r s : State)
      → after_check env now amsg direct a r ≡ returns none s
      → Keeps r s
  unfolding after_check
  after_check-Keeps now amsg direct none r s e =
      pass_on-Keeps now (filtered env r.filter_ips amsg) direct r s none e
  after_check-Keeps now amsg direct (some closed) r s e = cc
  after_check-Keeps now amsg direct (some source_not_allowed) r s e = ground arith
  after_check-Keeps now amsg direct (some already_seen) r s e = ground arith
  after_check-Keeps now amsg direct (some context_done) r s e = ground arith
  after_check-Keeps now amsg direct (some topic_close_failed) r s e = ground arith

  -- An announcement of a CID that is seen goes no further than the check.
  handle_announce-seen :
      (r : State) (amsg : Announce Cid Peer Addr) (direct : Bool) (now : Moment)
      → HasCache env r
      → r.locked ≡ false
      → r.is_closed ≡ false
      → contains env.same_key (env.cid_string amsg.cid) (seen env r) ≡ true
      → (t : State) × (handle_announce env now amsg direct r ≡ returns none t)
        × (t.out_chan ≡ r.out_chan)
        × (t.published ≡ r.published)
  unfolding handle_announce after_check
  handle_announce-seen r amsg direct now v free live known =
      let (cache, (step, _, _, _)) = announce_check-Checked env r amsg v free in
      (record r { announce_cache = cache }, ground (arith, step), refl, refl)

  -- The check behind a call without an error found the receiver open.
  handle_announce-live :
      (r s : State) (amsg : Announce Cid Peer Addr) (direct : Bool) (now : Moment)
      → HasCache env r
      → r.locked ≡ false
      → handle_announce env now amsg direct r ≡ returns none s
      → r.is_closed ≡ false
  unfolding handle_announce after_check
  handle_announce-live r s amsg direct now v free e =
      let (cache, (step, _, _, _)) = announce_check-Checked env r amsg v free in
      ground (arith, step)

  -- On a receiver with a well formed cache and a free mutex: after an announcement of a CID by an
  -- allowed peer returned without an error, another one of the same CID, by whatever peer and
  -- way, returns without an error and passes nothing on.
  pub handle_announce-twice :
      (r s : State) (first second : Announce Cid Peer Addr) (direct again : Bool)
      (now later : Moment)
      → HasCache env r
      → r.locked ≡ false
      → is_allowed env r.allow_peer first.peer ≡ true
      → env.cid_string second.cid ≡ env.cid_string first.cid
      → handle_announce env now first direct r ≡ returns none s
      → (t : State) × (handle_announce env later second again s ≡ returns none t)
        × (t.out_chan ≡ s.out_chan)
        × (t.published ≡ s.published)
  unfolding handle_announce
  handle_announce-twice r s first second direct again now later v free allowed same e =
      let live = handle_announce-live r s first direct now v free e in
      let (cache, (step, valid, size, kept)) = announce_check-Checked env r first v free in
      let k : Keeps (record r { announce_cache = cache }) s =
        after_check-Keeps now first direct (verdict env r first) _ s (rw step at e) in
      handle_announce-seen s second again later
        (record {
          valid = subst (IsValid env.same_key) (sym k.cache) valid;
          size = ap (λ (c : Lru Key). c.max) k.cache ∙ size;
        })
        (k.lock ∙ free) (k.shut ∙ live)
        (ap (λ (c : Lru Key). contains env.same_key (env.cid_string second.cid) (values c.nodes))
            k.cache
          ∙ ap (contains env.same_key (env.cid_string second.cid)) kept
          ∙ ap (λ (key : Key). contains env.same_key key (seen_after env r first)) same
          ∙ contains-seen_after r first live allowed)

  -- The answer to an announcement of a CID that was not seen.
  abbrev pub verdict_unseen : State → Announce Cid Peer Addr → Option Error
  verdict_unseen r amsg =
      if r.is_closed
      then some closed
      else if not (is_allowed env r.allow_peer amsg.peer)
      then some source_not_allowed
      else none

  -- The answers without the CID among those seen.
  uncached_answer :
      (r : State) (c : Cid) (amsg : Announce Cid Peer Addr) (cache : Lru Key)
      → values cache.nodes ≡ remove env.same_key (env.cid_string c) (seen env r)
      → verdict env (record r { announce_cache = cache }) amsg
        ≡ ite
            (env.same_key (env.cid_string amsg.cid) (env.cid_string c))
            (verdict_unseen r amsg)
            (verdict env r amsg)
  uncached_answer r c amsg cache kept =
      let key = env.cid_string c in
      elim (env.same_key (env.cid_string amsg.cid) key) [
        | yes same ↦
            let gone =
              ap (contains env.same_key (env.cid_string amsg.cid)) kept
              ∙ ap (λ (k : Key). contains env.same_key k (remove env.same_key key (seen env r)))
                  same
              ∙ contains-remove_self env.same_key key (seen env r) in
            ground (arith, gone)
        | no other ↦
            let as_before =
              ap (contains env.same_key (env.cid_string amsg.cid)) kept
              ∙ contains-remove_ne env.same_key (env.cid_string amsg.cid) key (seen env r) other in
            ground (arith, as_before)
      ]

  -- On a receiver with a well formed cache and a free mutex, UncacheCid returns; what announceCheck
  -- then answers to an announcement of the CID is what it answers to a CID that was not seen, and to
  -- any other announcement what it answered before.
  pub uncache_cid-verdict :
      (r : State) (c : Cid) (amsg : Announce Cid Peer Addr)
      → HasCache env r
      → r.locked ≡ false
      → (s : State) × (uncache_cid env c r ≡ returns tt s)
        × HasCache env s
        × (before : Option Error) × (r₁ : State) × (s₁ : State) × (announce_check env amsg r
            ≡ returns before r₁)
        × (announce_check env amsg s
            ≡ returns
                (ite
                  (env.same_key (env.cid_string amsg.cid) (env.cid_string c))
                  (verdict_unseen r amsg)
                  before)
                s₁)
  unfolding uncache_cid
  uncache_cid-verdict r c amsg v free =
      let key = env.cid_string c in
      let cache = (remove_key env.same_key r.announce_cache key).0 in
      let (valid, kept, _) = remove_key-refines env.same_key r.announce_cache key v.valid in
      let s : State = record r { announce_cache = cache } in
      let w : HasCache env s = record {
        valid = valid;
        size = max-remove_key env.same_key r.announce_cache key ∙ v.size;
      } in
      let (r_cache, (r_step, _, _, _)) = announce_check-Checked env r amsg v free in
      let (s_cache, (s_step, _, _, _)) = announce_check-Checked env s amsg w free in
      (
        s,
        ground arith,
        w,
        verdict env r amsg,
        record r { announce_cache = r_cache },
        record s { announce_cache = s_cache },
        r_step,
        s_step
            ∙ ap (λ a. returns a (record s { announce_cache = s_cache }))
                (uncached_answer r c amsg cache kept),
      )
