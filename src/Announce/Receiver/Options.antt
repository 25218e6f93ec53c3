-- ===== src/Announce/Receiver/Options.antt =====
-- announce/option.go and `NewReceiver` of announce/receiver.go.
use go_legs.Prelude.{
  Bool, true, false, not, ◌&&◌, Option, none, List, [], ◌∷◌, Result, ok, ◌>>=◌, ◌>>◌, fail_if,
  is_none,
}
use go_legs.Announce.Lru.{new_lru}
use go_legs.Announce.Receiver.{Receiver, announce_cache_size}

-- `config`; `Topic` is the type of pubsub topics.
pub record Config (Peer Topic : Type 0) : Type 0 where
  pub allow_peer : Option (Peer → Bool)
  pub filter_ips : Bool
  pub resend : Bool
  pub topic : Option Topic

pub data NewError : Type 0 where
  option_failed topic_failed subscribe_failed : NewError

-- `Option`
abbrev pub ConfigOption : Type 0 → Type 0 → Type 0
ConfigOption Peer Topic = Config Peer Topic → Result NewError (Config Peer Topic)

unfoldable pub with_allow_peer :
    (Peer Topic : Type 0) → Option (Peer → Bool) → ConfigOption Peer Topic
with_allow_peer Peer Topic allow c = ok (record c { allow_peer = allow })

unfoldable pub with_filter_ips : (Peer Topic : Type 0) → Bool → ConfigOption Peer Topic
with_filter_ips Peer Topic enable c = ok (record c { filter_ips = enable })

unfoldable pub with_resend : (Peer Topic : Type 0) → Bool → ConfigOption Peer Topic
with_resend Peer Topic enable c = ok (record c { resend = enable })

unfoldable pub with_topic : (Peer Topic : Type 0) → Option Topic → ConfigOption Peer Topic
with_topic Peer Topic topic c = ok (record c { topic = topic })

-- The loop over the options in `NewReceiver`.
unfoldable pub apply :
    {Peer Topic : Type 0}
    → List (ConfigOption Peer Topic)
    → Config Peer Topic
    → Result NewError (Config Peer Topic)
apply [] c = ok c
apply (opt ∷ opts) c = opt c >>= apply opts

abbrev no_options : (Peer Topic : Type 0) → Config Peer Topic
no_options Peer Topic = record {
  allow_peer = none;
  filter_ips = false;
  resend = false;
  topic = none;
}

-- `NewReceiver`; `makes` and `subscribes` tell whether `MakeTopic` and `Subscribe` succeed.
unfoldable pub new_receiver :
    (Cid Addr Key : Type 0) {Peer Topic : Type 0}
    → Bool
    → Bool
    → Peer
    → List (ConfigOption Peer Topic)
    → Result NewError (Receiver Cid Peer Addr Key)
unfolding apply new_lru
new_receiver Cid Addr Key {Peer} {Topic} makes subscribes host_id opts = do
  cfg ← apply opts (no_options Peer Topic)
  fail_if (is_none cfg.topic && not makes) topic_failed
  fail_if (not subscribes) subscribe_failed
  ok (record {
    allow_peer = cfg.allow_peer;
    filter_ips = cfg.filter_ips;
    resend = cfg.resend;
    host_id = host_id;
    announce_cache = new_lru announce_cache_size;
    locked = false;
    is_closed = false;
    subscribed = true;
    done = false;
    watch_done = false;
    owns_topic = is_none cfg.topic;
    in_topic = true;
    out_chan = [];
    published = [];
  })
