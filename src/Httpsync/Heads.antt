-- ===== src/Httpsync/Heads.antt =====
-- httpsync/message.go and publisher.go, and `GetHead` of sync.go: signed heads. The keys of libp2p,
-- dag-json and the texts of CIDs are parameters.
pub mod Genuine
mod Tests
use go_legs.Prelude.{
  ℕ, Bool, true, false, Option, none, some, List, [], ◌∷◌, ◌++◌, if◌then◌else◌, ◌==◌, Result, ok,
  err,
}
use go_legs.Head.{Response, head_path}
use go_legs.Head.Paths.{path_base, is_same}

-- `signedHead`
pub record SignedHead (Cid : Type 0) : Type 0 where
  pub head : Cid
  pub sig : List ℕ
  pub pubkey : List ℕ

-- `none` is an error of the call.
pub record Crypto (Cid Peer Priv Pub : Type 0) : Type 0 where
  pub cid_bytes : Cid → List ℕ
  pub sign : Priv → List ℕ → Option (List ℕ)
  pub get_public : Priv → Pub
  pub marshal_public_key : Pub → Option (List ℕ)
  pub unmarshal_public_key : List ℕ → Option Pub
  pub verify : Pub → List ℕ → List ℕ → Option Bool
  pub id_from_public_key : Pub → Option Peer
  pub encode : SignedHead Cid → Option (List ℕ)
  pub decode : List ℕ → Option (SignedHead Cid)

pub data HeadError : Type 0 where
  not_signed not_encoded not_decoded bad_key not_verified invalid_signature : HeadError
  no_peer_id unexpected_peer fetch_failed : HeadError

module _ {Cid Peer Priv Pub : Type 0} (crypto : Crypto Cid Peer Priv Pub) where
  unfoldable pub new_encoded_signed_head : Cid → Priv → Option (List ℕ)
  new_encoded_signed_head c priv = elim (crypto.sign priv (crypto.cid_bytes c)) [
    | none ↦ none
    | some sig ↦ elim (crypto.marshal_public_key (crypto.get_public priv)) [
      | none ↦ none
      | some key ↦ crypto.encode (record { head = c; sig = sig; pubkey = key })
    ]
  ]

  unfoldable pub open_signed_head_envelop : Pub → SignedHead Cid → Result HeadError Cid
  open_signed_head_envelop key e = elim (crypto.verify key (crypto.cid_bytes e.head) e.sig) [
    | none ↦ err not_verified
    | some valid ↦ if valid then ok e.head else err invalid_signature
  ]

  -- `openSignedHead`, with a key of the caller.
  unfoldable pub open_signed_head : Pub → List ℕ → Result HeadError Cid
  unfolding open_signed_head_envelop
  open_signed_head key msg = elim (crypto.decode msg) [
    | none ↦ err not_decoded
    | some e ↦ open_signed_head_envelop key e
  ]

  -- `openSignedHeadWithIncludedPubKey`
  unfoldable pub open_with_included_key : List ℕ → Result HeadError (Pub × Cid)
  unfolding open_signed_head_envelop
  open_with_included_key msg = elim (crypto.decode msg) [
    | none ↦ err not_decoded
    | some e ↦ elim (crypto.unmarshal_public_key e.pubkey) [
      | none ↦ err bad_key
      | some key ↦ elim (open_signed_head_envelop key e) [ err x ↦ err x | ok c ↦ ok (key, c) ]
    ]
  ]

  -- `GetHead` of a syncer for a peer, with the body of the response to its fetch, if that succeeds.
  unfoldable pub get_signed_head : Discrete Peer → Peer → Option (List ℕ) → Result HeadError Cid
  unfolding open_with_included_key
  get_signed_head same_peer peer body = elim body [
    | none ↦ err fetch_failed
    | some msg ↦ elim (open_with_included_key msg) [
      | err x ↦ err x
      | ok (key, c) ↦ elim (crypto.id_from_public_key key) [
        | none ↦ err no_peer_id
        | some p ↦ elim (same_peer p peer) [ yes _ ↦ ok c | no _ ↦ err unexpected_peer ]
      ]
    ]
  ]

-- `publisher`
pub record HttpPublisher (Cid Priv : Type 0) : Type 0 where
  pub root : Cid
  pub priv_key : Priv

-- `SetRoot`, which `UpdateRoot` and `UpdateRootWithAddrs` call.
unfoldable pub set_http_root :
    {Cid Priv : Type 0} → Cid → HttpPublisher Cid Priv → HttpPublisher Cid Priv
set_http_root c p = record p { root = c }

-- `NewPublisher`: a nil key is refused; then the errors of listening and of the address.
unfoldable pub new_http_publisher :
    {Cid Priv : Type 0} → Cid → Option Priv → Bool → Bool → Option (HttpPublisher Cid Priv)
new_http_publisher undef none listens addressed = none
new_http_publisher undef (some key) listens addressed =
    if listens
    then if addressed then some (record { root = undef; priv_key = key }) else none
    else none

-- What the link system loads.
pub data Loaded : Type 0 where
  loaded : List ℕ → Loaded
  not_exists load_failed : Loaded

abbrev fails : ℕ → Response
fails code = record { status_code = code; body = [] }

-- `ServeHTTP`, of the path of the URL; the text of an error is left out. `load` gives the dag-json of
-- a node.
unfoldable pub serve_http :
    {Cid Peer Priv Pub : Type 0}
    → Crypto Cid Peer Priv Pub
    → (List ℕ → Option Cid)
    → (Cid → Loaded)
    → List ℕ
    → HttpPublisher Cid Priv
    → Response
unfolding new_encoded_signed_head path_base is_same
serve_http crypto parse load path p =
    if is_same (path_base path) head_path
    then elim (new_encoded_signed_head crypto p.root p.priv_key) [
      | none ↦ fails 500
      | some msg ↦ record { status_code = 200; body = msg }
    ]
    else elim (parse (path_base path)) [
      | none ↦ fails 400
      | some c ↦ elim (load c) [
        | not_exists ↦ fails 404
        | load_failed ↦ fails 500
        | loaded json ↦ record { status_code = 200; body = json }
      ]
    ]
