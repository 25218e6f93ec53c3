-- ===== src/Httpsync/Fetch.antt =====
-- httpsync/sync.go: the blocks of a sync, from the link system or over HTTP. The HTTP client, the
-- limiter, the hash functions and the link system's writer are parameters; a store is a function.
pub mod Verified
mod Tests
use go_legs.Prelude.{
  ℕ, zero, suc, ◌+◌, ◌≡◌, ◌==◌, Bool, true, false, not, if◌then◌else◌, Option, none, some, List, [],
  ◌∷◌, ◌++◌, Result, ok, err,
}
use go_legs.Traversal.{Walk, finished, walk_failed, load}
use go_legs.Head.{Response}
use go_legs.Dtsync.Transfers.{hook_each}

-- The errors of a fetch. `&rateLimitErr{...}` is a pointer, and not the struct that `walkFetch` tests
-- for.
pub data HttpError : Type 0 where
  rate_limit_pointer rate_limit_value bad_request request_failed bad_status : HttpError
  no_writer no_digest digest_mismatch not_committed not_found bad_head : HttpError

-- The type test `err.(rateLimitErr)`.
abbrev pub is_rate_limit_value : HttpError → Bool
is_rate_limit_value e = elim e [ rate_limit_value ↦ true | _ ↦ false ]

-- The store of the link system, the requests made, the calls of the block hook, and the rest of the
-- world.
pub record HttpState (Cid Peer World : Type 0) : Type 0 where
  pub stored : Cid → Option (List ℕ)
  pub requested : List (List ℕ)
  pub hook_calls : List (Peer × Cid)
  pub surroundings : World

-- The syncer, and what it uses.
pub record HttpSyncer (Cid Peer Limiter World Node Digest : Type 0) : Type 0 where
  pub same_cid : Discrete Cid
  pub peer : Peer
  pub limiter : Option Limiter
  -- `limiter.Wait`: whether it gives no error.
  pub wait : Limiter → World → Bool × World
  pub is_request : List ℕ → Bool
  -- `client.Do`: a response, or an error.
  pub respond : List ℕ → World → Option Response × World
  pub cid_text : Cid → List ℕ
  -- Whether the link system can load the node of a block.
  pub is_node : Cid → List ℕ → Bool
  pub opens_writer : World → Bool
  pub commits : Cid → World → Bool
  -- The digest of bytes by the hash function of a CID, and the digest in the CID.
  pub sum : Cid → List ℕ → Option Digest
  pub same_digest : Discrete Digest
  pub digest : Cid → Digest
  pub has_block_hook : Bool
  -- The traversal by a selector, if that compiles.
  pub traverse : Node → Cid → Option (Walk Cid (List ℕ))

module _ {Cid Peer Limiter World Node Digest : Type 0}
    (syncer : HttpSyncer Cid Peer Limiter World Node Digest) where
  abbrev pub Call : Type 0 → Type 0
  Call A = HttpState Cid Peer World → Result HttpError A × HttpState Cid Peer World

  -- The wait for the limiter.
  abbrev limited : HttpState Cid Peer World → Bool × HttpState Cid Peer World
  limited s = elim syncer.limiter [
    | none ↦ (true, s)
    | some l ↦
        let (going, w) = syncer.wait l s.surroundings in (going, record s { surroundings = w })
  ]

  -- `fetch`, of a resource, with its callback on the body.
  unfoldable pub fetch : {A : Type 0} → List ℕ → (List ℕ → Call A) → Call A
  fetch rsrc cb s =
      let (going, s₁) = limited s in
      if going
      then if syncer.is_request rsrc
        then (let (response, w) = syncer.respond rsrc s₁.surroundings in
            let s₂ = record s₁ { surroundings = w; requested = s₁.requested ++ rsrc ∷ [] } in
            elim response [
              | none ↦ (err request_failed, s₂)
              | some resp ↦
                  if resp.status_code == 200 then cb resp.body s₂ else (err bad_status, s₂)
            ])
        else (err bad_request, s₁)
      else (err rate_limit_pointer, s₁)

  -- The callback of `fetchBlock`.
  unfoldable pub store_block : Cid → List ℕ → Call (Unit {0})
  store_block c body s =
      if syncer.opens_writer s.surroundings
      then elim (syncer.sum c body) [
        | none ↦ (err no_digest, s)
        | some sum ↦ elim (syncer.same_digest (syncer.digest c) sum) [
          | no _ ↦ (err digest_mismatch, s)
          | yes _ ↦
              if syncer.commits c s.surroundings
              then (
                ok tt,
                record s {
                  stored =
                      λ d. elim (syncer.same_cid c d) [ yes _ ↦ some body | no _ ↦ s.stored d ];
                },
              )
              else (err not_committed, s)
        ]
      ]
      else (err no_writer, s)

  -- Whether `fetchBlock` finds the node in the link system.
  abbrev is_present : Cid → HttpState Cid Peer World → Bool
  is_present c s = elim (s.stored c) [ none ↦ false | some b ↦ syncer.is_node c b ]

  unfoldable pub fetch_block : Cid → Call (Unit {0})
  unfolding fetch store_block
  fetch_block c s =
      if is_present c s then (ok tt, s) else fetch (syncer.cid_text c) (store_block c) s

  -- The loop that fetches a block, on fuel. `none` means that the fuel ran out.
  unfoldable pub fetch_loop :
      ℕ
      → Cid
      → HttpState Cid Peer World
      → Option (Result HttpError (Unit {0}) × HttpState Cid Peer World)
  unfolding fetch_block
  fetch_loop zero c s = none
  fetch_loop (suc fuel) c s =
      let (done, t) = fetch_block c s in
      elim done [
        | ok _ ↦ some (ok tt, t)
        | err e ↦ elim (is_rate_limit_value e) [
          | true ↦ fetch_loop fuel c t
          | false ↦ some (err e, t)
        ]
      ]

  -- The traversal of `walkFetch` over its link system, with the CIDs in the order of traversal.
  unfoldable pub walk_fetch :
      ℕ
      → Walk Cid (List ℕ)
      → List Cid
      → HttpState Cid Peer World
      → Option (Result HttpError (List Cid) × HttpState Cid Peer World)
  unfolding fetch_loop
  walk_fetch fuel finished order s = some (ok order, s)
  walk_fetch fuel walk_failed order s = some (err not_found, s)
  walk_fetch fuel (load c go) order s = elim (s.stored c) [
    | some b ↦ walk_fetch fuel (go b) (order ++ c ∷ []) s
    | none ↦ elim (fetch_loop fuel c s) [
      | none ↦ none
      | some (err e, t) ↦ some (err e, t)
      | some (ok _, t) ↦ elim (t.stored c) [
        | none ↦ some (err not_found, t)
        | some b ↦ walk_fetch fuel (go b) (order ++ c ∷ []) t
      ]
    ]
  ]

  -- `Sync`: whether it gives no error.
  unfoldable pub sync_http :
      ℕ → Cid → Node → HttpState Cid Peer World → Option (Bool × HttpState Cid Peer World)
  unfolding walk_fetch hook_each
  sync_http fuel c sel s = elim (syncer.traverse sel c) [
    | none ↦ some (false, s)
    | some w ↦ elim (walk_fetch fuel w [] s) [
      | none ↦ none
      | some (err e, t) ↦ some (false, t)
      | some (ok cids, t) ↦ some (
        true,
        (if syncer.has_block_hook
            then record t { hook_calls = t.hook_calls ++ hook_each syncer.peer cids }
            else t),
      )
    ]
  ]
