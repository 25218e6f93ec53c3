-- ===== src/Head.antt =====
-- p2p/protocol/head/head.go: the published root and the query for it. Texts are their bytes. The
-- streams of libp2p and go-cid's texts are parameters.
pub mod Paths
pub mod Query
mod Tests
use go_legs.Prelude.{
  ℕ, Bool, true, false, if◌then◌else◌, Option, none, some, List, [], ◌∷◌, ◌++◌, Result, ok, err,
  is_some,
}
use Paths.{path_base, path_join, is_same}

-- `Publisher`, without its server.
pub record HeadPublisher (Cid : Type 0) : Type 0 where
  pub published_root : Cid

-- A response: its status and its body.
pub record Response : Type 0 where
  pub status_code : ℕ
  pub body : List ℕ

-- "/legs/head", "0.0.1", "head"
abbrev pub legs_head : List ℕ
legs_head = 47 ∷ 108 ∷ 101 ∷ 103 ∷ 115 ∷ 47 ∷ 104 ∷ 101 ∷ 97 ∷ 100 ∷ []

abbrev pub version : List ℕ
version = 48 ∷ 46 ∷ 48 ∷ 46 ∷ 49 ∷ []

abbrev pub head_path : List ℕ
head_path = 104 ∷ 101 ∷ 97 ∷ 100 ∷ []

unfoldable pub derive_protocol_id : List ℕ → List ℕ
unfolding path_join
derive_protocol_id topic = path_join (legs_head ∷ topic ∷ version ∷ [])

-- The "double-slashed" ID of the providers that were not upgraded.
abbrev pub old_protocol_id : List ℕ → List ℕ
old_protocol_id topic = legs_head ++ 47 ∷ (topic ++ 47 ∷ version)

pub data Dialled : Type 0 where
  dialled not_supported dial_failed : Dialled

pub data QueryError : Type 0 where
  connect_failed no_stream no_response not_read not_a_cid : QueryError

-- `UpdateRoot`
unfoldable pub update_head : {Cid : Type 0} → Cid → HeadPublisher Cid → HeadPublisher Cid
update_head c p = record p { published_root = c }

module _ {Cid : Type 0} (same_cid : Discrete Cid) (undef : Cid) (cid_text : Cid → List ℕ) where
  -- `ServeHTTP`, of the path of the request's URL.
  unfoldable pub serve_head : List ℕ → HeadPublisher Cid → Response
  unfolding path_base is_same
  serve_head path p =
      if is_same (path_base path) head_path
      then record {
        status_code = 200;
        body = elim (same_cid p.published_root undef) [
          | yes _ ↦ []
          | no _ ↦ cid_text p.published_root
        ];
      }
      else record { status_code = 404; body = 10 ∷ [] }

module _ (connect : Bool) (dial : List ℕ → Dialled) where
  -- `DialContext`: the protocol ID of the stream.
  unfoldable pub dial_context : List ℕ → Result QueryError (List ℕ)
  unfolding derive_protocol_id
  dial_context topic =
      if connect
      then elim (dial (derive_protocol_id topic)) [
        | dialled ↦ ok (derive_protocol_id topic)
        | dial_failed ↦ err no_stream
        | not_supported ↦ elim (dial (old_protocol_id topic)) [
          | dialled ↦ ok (old_protocol_id topic)
          | not_supported ↦ err no_stream
          | dial_failed ↦ err no_stream
        ]
      ]
      else err connect_failed

module _ {Cid : Type 0} (undef : Cid) (decode : List ℕ → Option Cid) where
  -- What is made of the body of the response.
  unfoldable pub read_head : List ℕ → Result QueryError Cid
  read_head [] = ok undef
  read_head (b ∷ bs) = elim (decode (b ∷ bs)) [ none ↦ err not_a_cid | some c ↦ ok c ]

  -- `QueryRootCid`, where `get` is the response on a stream to a path, and `read_all` its body, if
  -- that can be read.
  unfoldable pub query_root_cid :
      Bool
      → (List ℕ → Dialled)
      → (List ℕ → List ℕ → Option Response)
      → (Response → Option (List ℕ))
      → List ℕ
      → Result QueryError Cid
  unfolding dial_context read_head
  query_root_cid connect dial get read_all topic = elim (dial_context connect dial topic) [
    | err e ↦ err e
    | ok pid ↦ elim (get pid (47 ∷ head_path)) [
      | none ↦ err no_response
      | some resp ↦ elim (read_all resp) [ none ↦ err not_read | some text ↦ read_head text ]
    ]
  ]
