-- ===== src/Dtsync/Publisher.antt =====
-- dtsync/publisher.go and option.go: a publisher on the head protocol and on a pubsub topic.
-- The calls of go-data-transfer, pubsub and libp2p are parameters: the error that they give, or none.
pub mod Announces
mod Tests
use go_legs.Prelude.{
  ℕ, Bool, true, false, not, ◌&&◌, if◌then◌else◌, Option, none, some, List, [], ◌∷◌, ◌++◌, Result,
  ok, err, ◌>>=◌, is_none, is_some, length, ◌==◌, Outcome, returns, blocks, panics,
}
use go_legs.Announce.Gossip.CborGen.{Cbg}
use go_legs.Announce.Gossip.{Message, marshal}
use go_legs.Announce.Gossip.Addrs.{set_addrs}
use go_legs.Announce.Gossip.Limits.{always}
use go_legs.Head.{HeadPublisher, update_head}
use go_legs.Dtsync.SetUp.{SetUp, Text, make_data_transfer_fails, configure_data_transfer_fails}

-- `config` of dtsync.
pub record PublisherConfig (Peer Topic : Type 0) : Type 0 where
  pub extra : List ℕ
  pub pub_topic : Option Topic
  pub allow : Option (Peer → Bool)

abbrev pub PublisherOption : Type 0 → Type 0 → Type 0
PublisherOption Peer Topic = PublisherConfig Peer Topic → Result Text (PublisherConfig Peer Topic)

module _ (Peer Topic : Type 0) where
  -- `WithExtraData`, `Topic`, `AllowPeer`
  unfoldable pub with_extra_data : List ℕ → PublisherOption Peer Topic
  with_extra_data [] c = ok c
  with_extra_data (b ∷ bs) c = ok (record c { extra = b ∷ bs })

  unfoldable pub existing_topic : Option Topic → PublisherOption Peer Topic
  existing_topic topic c = ok (record c { pub_topic = topic })

  unfoldable pub allow_puller : Option (Peer → Bool) → PublisherOption Peer Topic
  allow_puller allow c = ok (record c { allow = allow })

  -- `config.apply`
  unfoldable pub apply_options : List (PublisherOption Peer Topic) → PublisherOption Peer Topic
  apply_options [] c = ok c
  apply_options (opt ∷ opts) c = opt c >>= apply_options opts

-- `publisher`: the CID of its head publisher, and what was published on the topic.
pub record DtPublisher (Cid : Type 0) : Type 0 where
  pub head_publisher : HeadPublisher Cid
  pub extra_data : List ℕ
  pub payloads : List (List ℕ)
  pub owns_data_transfer : Bool
  pub owns_topic : Bool
  pub is_closed : Bool

pub data NewPublisherError : Type 0 where
  bad_option no_topic no_data_transfer : NewPublisherError

-- What a constructor does: it makes a publisher, or fails and has then cancelled pubsub or not.
pub data Made (Cid : Type 0) : Type 0 where
  made : DtPublisher Cid → Made Cid
  not_made : NewPublisherError → Bool → Made Cid

abbrev new_with :
    {Cid Peer Topic : Type 0}
    → Cid
    → Bool
    → Bool
    → Option Text
    → PublisherConfig Peer Topic
    → Made Cid
new_with undef owns_dt fails topic_error c =
    if is_none c.pub_topic && is_some topic_error
    then not_made no_topic false
    else if fails
    then not_made no_data_transfer (is_none c.pub_topic)
    else made (record {
      head_publisher = record { published_root = undef };
      extra_data = c.extra;
      payloads = [];
      owns_data_transfer = owns_dt;
      owns_topic = is_none c.pub_topic;
      is_closed = false;
    })

abbrev after_options :
    {Cid Peer Topic : Type 0}
    → Result Text (PublisherConfig Peer Topic)
    → (PublisherConfig Peer Topic → Made Cid)
    → Made Cid
after_options (err e) go = not_made bad_option false
after_options (ok c) go = go c

module _ {Cid : Type 0} (Peer Topic : Type 0) (undef : Cid) where
  abbrev no_config : PublisherConfig Peer Topic
  no_config = record { extra = []; pub_topic = none; allow = none }

  -- `NewPublisher` and `NewPublisherFromExisting`, with the error of `MakeTopic`.
  unfoldable pub new_publisher : SetUp → Option Text → List (PublisherOption Peer Topic) → Made Cid
  unfolding apply_options make_data_transfer_fails
  new_publisher u topic_error opts =
      after_options (apply_options Peer Topic opts no_config)
        (new_with undef true (make_data_transfer_fails u) topic_error)

  unfoldable pub new_publisher_from_existing :
      SetUp → Option Text → List (PublisherOption Peer Topic) → Made Cid
  unfolding apply_options configure_data_transfer_fails
  new_publisher_from_existing u topic_error opts =
      after_options (apply_options Peer Topic opts no_config)
        (new_with undef false (configure_data_transfer_fails u) topic_error)

pub data UpdateError : Type 0 where
  undefined_root not_marshalled not_published : UpdateError

module _ {Cid : Type 0} (same_cid : Discrete Cid) (undef : Cid) where
  -- `SetRoot`
  unfoldable pub set_root : Cid → DtPublisher Cid → Option UpdateError × DtPublisher Cid
  unfolding update_head
  set_root c p = elim (same_cid c undef) [
    | yes _ ↦ (some undefined_root, p)
    | no _ ↦ (none, record p { head_publisher = update_head c p.head_publisher })
  ]

  -- `UpdateRootWithAddrs`, and `UpdateRoot` with the addresses of the host. A nil address is a panic.
  unfoldable pub update_root_with_addrs :
      Cbg Cid
      → {Addr : Type 0} → (Addr → List ℕ)
      → (List ℕ → Option Text)
      → Cid
      → List (Option Addr)
      → DtPublisher Cid
      → Outcome (DtPublisher Cid) (Option UpdateError)
  unfolding set_root set_addrs marshal
  update_root_with_addrs cbg bytes publish c addrs p =
      let (refused, p₁) = set_root c p in
      elim refused [
        | some e ↦ returns (some e) p
        | none ↦ elim (set_addrs bytes addrs) [
          | none ↦ panics
          | some vs ↦
              elim (marshal cbg always
                (record { cid = c; addrs = vs; extra_data = p.extra_data; orig_peer = [] }) []) [
                  | err e ↦ returns (some not_marshalled) p₁
                  | ok buf ↦ elim (publish buf) [
                    | some e ↦ returns (some not_published) p₁
                    | none ↦ returns none (record p₁ { payloads = p₁.payloads ++ buf ∷ [] })
                  ]
                ]
        ]
      ]

abbrev error_list : Option Text → List Text
error_list none = []
error_list (some e) = e ∷ []

-- `Close`, with the errors of its calls: the errors, and how often pubsub is cancelled.
unfoldable pub close_publisher :
    {Cid : Type 0}
    → Option Text
    → Option Text
    → Option Text
    → DtPublisher Cid
    → (List Text × ℕ) × DtPublisher Cid
close_publisher head_error dt_error topic_error p = if p.is_closed then (([], 0), p) else (
  (
    error_list head_error
        ++ (if p.owns_data_transfer then error_list dt_error else [])
        ++ (if p.owns_topic then error_list topic_error else []),
    if p.owns_topic then 1 else 0,
  ),
  record p { is_closed = true },
)
