-- ===== src/Announce/Receiver/Tests.antt =====
-- announce/receiver.go on concrete announcements: CIDs and addresses are byte strings, peers are
-- numbers.
use go_legs.Prelude.{
  ℕ, ◌≡◌, refl, Option, none, some, List, [], ◌∷◌, Bool, true, false, get_or, ok, leb, ◌&&◌,
  ℕ_discrete, ◌⊎◌, ite, returns, blocks, panics, Outcome, err,
}
use go_legs.Announce.Lru.{Lru, new_lru}
use go_legs.Announce.Lru.Refines.{new_lru-IsValid}
use go_legs.Announce.Gossip.{marshal}
use go_legs.Announce.Gossip.Addrs.{set_addrs}
use go_legs.Mautil.{filter_private_ips}
use go_legs.Mautil.Ip.{is_private, is_loopback, is_unspecified}
use go_legs.Announce.Gossip.Concrete.{coder, coder-IsCbor}
use go_legs.Announce.Receiver.{
  Foreign, Announce, Receiver, Moment, Error, closed, pick_channel, pick_done, handle_announce,
  announce_check, direct, next, close, set_allow_peer, uncache_cid, republish,
}
use go_legs.Announce.Receiver.Checks.{HasCache, Checked, announce_check-Checked}
use go_legs.Announce.Receiver.Closing.{close-closed, close-blocks}
use go_legs.Announce.Receiver.Dedup.{handle_announce-twice, uncache_cid-verdict, verdict_unseen}
use go_legs.Announce.Receiver.Relay.{IsFaithful, IsRelayed, republish-IsRelayed}
use go_legs.Announce.Receiver.Options.{
  ConfigOption, with_allow_peer, with_filter_ips, with_resend, new_receiver,
}
use go_legs.Announce.Receiver.Sound.{IsSound}
use go_legs.Announce.Receiver.Invariant.{here, more, announces, new_receiver-IsSound}

decode_peer : List ℕ → Option ℕ
decode_peer (p ∷ []) = some p
decode_peer [] = none
decode_peer (p ∷ q ∷ ps) = none

env : Foreign (List ℕ) ℕ (List ℕ) ℕ
unfolding decode_peer
env = record {
  cid_string = λ c. get_or c 2 0;
  same_key = ℕ_discrete;
  same_peer = ℕ_discrete;
  to_ip = λ a. some a;
  addr_bytes = λ a. a;
  addr_from_bytes = λ v. some v;
  peer_string = λ p. p ∷ [];
  peer_decode = decode_peer;
  peer_from_bytes = decode_peer;
  cbg = coder;
}

env-IsFaithful : IsFaithful env
unfolding env decode_peer
env-IsFaithful = record {
  cbor = coder-IsCbor;
  addrs = λ a. refl;
  peers = λ p. refl;
  texts = λ p. λ e. cc;
}

abbrev Rec : Type 0
Rec = Receiver (List ℕ) ℕ (List ℕ) ℕ

-- A receiver that allows the peers 1 to 8 and resends direct announcements.
abbrev fresh : Rec
fresh = record {
  allow_peer = some (λ p. leb 1 p && leb p 8);
  filter_ips = true;
  resend = true;
  host_id = 5;
  announce_cache = new_lru 64;
  locked = false;
  is_closed = false;
  subscribed = true;
  done = false;
  watch_done = false;
  owns_topic = true;
  in_topic = true;
  out_chan = [];
  published = [];
}

fresh-HasCache : HasCache env fresh
unfolding new_lru env
fresh-HasCache = record { valid = new_lru-IsValid ℕ_discrete 64; size = refl }

abbrev from_3 : Announce (List ℕ) ℕ (List ℕ)
from_3 = record { cid = 1 ∷ 85 ∷ 18 ∷ []; peer = 3; addrs = some (4 ∷ 4 ∷ 8 ∷ 8 ∷ []) ∷ [] }

abbrev from_4 : Announce (List ℕ) ℕ (List ℕ)
from_4 = record { cid = 1 ∷ 85 ∷ 18 ∷ []; peer = 4; addrs = [] }

abbrev moment : Moment
moment = record { pick = pick_channel; context_done = false; publishes = true }

announce_check-Checked_example : (cache : Lru ℕ) × Checked env fresh from_3 cache
announce_check-Checked_example = announce_check-Checked env fresh from_3 fresh-HasCache refl

uncache_cid-verdict_example :
    (s : Rec) × (uncache_cid env (1 ∷ 85 ∷ 18 ∷ []) fresh ≡ returns tt s)
    × HasCache env s
    × (before : Option Error) × (r₁ : Rec) × (s₁ : Rec) × (announce_check env from_3 fresh
        ≡ returns before r₁)
    × (announce_check env from_3 s
        ≡ returns
            (ite
              (env.same_key (env.cid_string from_3.cid) (env.cid_string (1 ∷ 85 ∷ 18 ∷ [])))
              (verdict_unseen env fresh from_3)
              before)
            s₁)
uncache_cid-verdict_example =
    uncache_cid-verdict env fresh (1 ∷ 85 ∷ 18 ∷ []) from_3 fresh-HasCache refl

close-closed_example :
    (e : Option Error) × (s : Rec) × (close env true fresh ≡ returns e s)
    × ((now : Moment) (amsg : Announce (List ℕ) ℕ (List ℕ)) (direct : Bool)
        → handle_announce env now amsg direct s ≡ returns (some closed) s)
    × ((now : Moment)
        → next env (record now { pick = pick_done }) s ≡ returns (none, some closed) s)
close-closed_example = close-closed env fresh true refl refl

abbrev shut : Rec
shut = record fresh { is_closed = true; done = true; watch_done = true; subscribed = false }

close-blocks_example :
    (s : Rec) × (close env true shut ≡ returns none s)
    × ((again : Bool) → close env again s ≡ blocks)
    × ((now : Moment) (c : List ℕ) (p : ℕ) (addrs : List (Option (List ℕ)))
        → direct env now c p addrs s ≡ blocks)
    × ((allow : Option (ℕ → Bool)) → set_allow_peer env allow s ≡ blocks)
    × ((c : List ℕ) → uncache_cid env c s ≡ blocks)
close-blocks_example = close-blocks env shut true refl refl

-- The state that a call leaves, of the one it is given if it does not return.
abbrev state_after : {A : Type 0} → Outcome Rec A → Rec → Rec
state_after (returns a s) r = s
state_after blocks r = r
state_after panics r = r

-- The receiver with what it has heard from peer 3.
heard : Rec
unfolding handle_announce env
heard = state_after (handle_announce env moment from_3 true fresh) fresh

heard-returns : handle_announce env moment from_3 true fresh ≡ returns none heard
unfolding heard handle_announce env new_lru set_addrs filter_private_ips is_private is_loopback
    is_unspecified marshal coder
heard-returns = refl

handle_announce-twice_example :
    (t : Rec) × (handle_announce env moment from_4 false heard ≡ returns none t)
    × (t.out_chan ≡ heard.out_chan)
    × (t.published ≡ heard.published)
handle_announce-twice_example =
    handle_announce-twice env fresh heard from_3 from_4 true false moment moment fresh-HasCache refl
      refl refl heard-returns

-- The receiver that has republished the announcement.
relaying : Rec
unfolding republish env
relaying = state_after (republish env moment from_3 fresh) fresh

relaying-returns : republish env moment from_3 fresh ≡ returns tt relaying
unfolding relaying republish env set_addrs marshal coder
relaying-returns = refl

republish-IsRelayed_example :
    (relaying ≡ fresh)
    ⊎ ((msg_data : List ℕ) × (relaying ≡ record fresh { published = msg_data ∷ fresh.published })
        × IsRelayed env-IsFaithful from_3 msg_data)
republish-IsRelayed_example =
    republish-IsRelayed env-IsFaithful fresh relaying from_3 moment relaying-returns

abbrev options : List (ConfigOption ℕ ℕ)
unfolding with_allow_peer with_filter_ips with_resend
options =
    with_allow_peer ℕ ℕ (some (λ p. leb p 8)) ∷ with_filter_ips ℕ ℕ true ∷ with_resend ℕ ℕ true ∷ []

made : Rec
unfolding new_receiver options
made = elim (new_receiver (List ℕ) (List ℕ) ℕ true true 5 options) [ ok r ↦ r | err _ ↦ fresh ]

made-ok : new_receiver (List ℕ) (List ℕ) ℕ true true 5 options ≡ ok made
unfolding made new_receiver options
made-ok = refl

-- The receiver once it has heard from peer 3.
made_heard : Rec
unfolding handle_announce env made new_receiver options
made_heard = state_after (handle_announce env moment from_3 true made) made

made_heard-returns : handle_announce env moment from_3 true made ≡ returns none made_heard
unfolding made_heard handle_announce env made new_receiver options set_addrs filter_private_ips
    is_private is_loopback is_unspecified marshal coder
made_heard-returns = refl

new_receiver-IsSound_example : IsSound env made_heard
new_receiver-IsSound_example =
    new_receiver-IsSound env true true 5 options made made_heard made-ok
      (more here (announces moment from_3 true none made_heard-returns))
