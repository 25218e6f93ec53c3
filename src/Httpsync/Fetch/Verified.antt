-- ===== src/Httpsync/Fetch/Verified.antt =====
-- httpsync/sync.go: what a sync stores, and which blocks it tells the hook of.
use go_legs.Prelude.{
  ℕ, suc, ◌≡◌, refl, sym, ap, ◌∙◌, subst, Bool, true, false, if◌then◌else◌, none, some, List, [],
  ◌∷◌, ◌++◌, Result, ok, err, arith, ◌⊎◌, inl, inr, Option-cases, Result-cases,
}
use go_legs.Traversal.{Walk, finished, walk_failed, load, walk_stored}
use go_legs.Dtsync.Transfers.{hook_each}
use go_legs.Httpsync.Fetch.{
  HttpError, not_found, HttpState, HttpSyncer, fetch, store_block, fetch_block, is_rate_limit_value,
  fetch_loop, walk_fetch, sync_http,
}

module _ {Cid Peer Limiter World Node Digest : Type 0}
    (syncer : HttpSyncer Cid Peer Limiter World Node Digest) where
  -- A later state has the blocks of the earlier one, and others only if their digest is that of
  -- their CID.
  abbrev pub IsLater : HttpState Cid Peer World → HttpState Cid Peer World → Type 0
  IsLater s t =
      ((c : Cid) (b : List ℕ) → s.stored c ≡ some b → t.stored c ≡ some b)
      × ((c : Cid) (b : List ℕ)
          → t.stored c ≡ some b
          → (s.stored c ≡ some b) ⊎ (syncer.sum c b ≡ some (syncer.digest c)))
      × (s.hook_calls ≡ t.hook_calls)

  store_block-IsLater :
      (c : Cid) (body : List ℕ) (s : HttpState Cid Peer World)
      → s.stored c ≡ none
      → IsLater s (store_block syncer c body s).1
  unfolding store_block
  store_block-IsLater c body s absent =
      (λ d b had. ground (arith, had, absent), λ d b has. ground (arith, has, absent), ground arith)

  fetch_block-IsLater :
      (c : Cid) (s : HttpState Cid Peer World)
      → s.stored c ≡ none
      → IsLater s (fetch_block syncer c s).1
  unfolding fetch_block fetch store_block
  fetch_block-IsLater c s absent =
      (λ d b had. ground (arith, had, absent), λ d b has. ground (arith, has, absent), ground arith)

  -- No fetch gives the error that the loop of `walkFetch` tests for.
  fetch_block-errors :
      (c : Cid) (s : HttpState Cid Peer World) (e : HttpError)
      → (fetch_block syncer c s).0 ≡ err e
      → is_rate_limit_value e ≡ false
  unfolding fetch_block fetch store_block
  fetch_block-errors c s e h = ground arith

  -- The loop of `walkFetch` runs once.
  fetch_loop-once :
      (fuel : ℕ) (c : Cid) (s : HttpState Cid Peer World)
      → fetch_loop syncer (suc fuel) c s ≡ some (fetch_block syncer c s)
  unfolding fetch_loop
  fetch_loop-once fuel c s = elim (Result-cases (fetch_block syncer c s).0) [
    | inl (_, done) ↦ ground (arith, done)
    | inr (e, failed) ↦ ground (arith, failed, fetch_block-errors c s e failed)
  ]

  fetch_loop-gives :
      (fuel : ℕ) (c : Cid) (s : HttpState Cid Peer World) (r : Result HttpError (Unit {0}))
      → (fetch_block syncer c s).0 ≡ r
      → fetch_loop syncer (suc fuel) c s ≡ some (r, (fetch_block syncer c s).1)
  fetch_loop-gives fuel c s r h =
      fetch_loop-once fuel c s
      ∙ ap (λ (q : Result HttpError (Unit {0})). some (q, (fetch_block syncer c s).1)) h

  IsLater-trans : (s t u : HttpState Cid Peer World) → IsLater s t → IsLater t u → IsLater s u
  IsLater-trans s t u (keeps, new, hooks) (keeps', new', hooks') = (
    λ c b had. keeps' c b (keeps c b had),
    λ c b has. elim (new' c b has) [ inl there ↦ new c b there | inr sound ↦ inr sound ],
    hooks ∙ hooks',
  )

  IsLater-refl : (s : HttpState Cid Peer World) → IsLater s s
  IsLater-refl s = (λ c b h. h, λ c b h. inl h, refl)

  -- What a traversal gives: a later state, and its CIDs are those of the traversal over what is
  -- stored then.
  abbrev pub Walked :
      Walk Cid (List ℕ)
      → List Cid
      → HttpState Cid Peer World
      → Result HttpError (List Cid)
      → HttpState Cid Peer World
      → Type 0
  Walked w order s (ok cids) t = IsLater s t × (walk_stored t.stored w order ≡ some cids)
  Walked w order s (err e) t = IsLater s t

  Walked-on :
      (w : Walk Cid (List ℕ)) (c : Cid) (go : List ℕ → Walk Cid (List ℕ)) (b : List ℕ)
      (order : List Cid) (s t u : HttpState Cid Peer World) (r : Result HttpError (List Cid))
      → w ≡ load c go
      → t.stored c ≡ some b
      → IsLater s t
      → Walked (go b) (order ++ c ∷ []) t r u
      → Walked w order s r u
  unfolding walk_stored
  Walked-on w c go b order s t u (ok cids) e has first (rest, same) =
      (IsLater-trans s t u first rest, ground (arith, e, rest.0 c b has, same))
  Walked-on w c go b order s t u (err x) e has first rest = IsLater-trans s t u first rest

  walk_fetch-Walked :
      (fuel : ℕ) (w : Walk Cid (List ℕ)) (order : List Cid) (s : HttpState Cid Peer World)
      → (r : Result HttpError (List Cid)) × (t : HttpState Cid Peer World) × (walk_fetch syncer
            (suc fuel)
            w
            order
            s
          ≡ some (r, t))
        × Walked w order s r t
  unfolding walk_fetch walk_stored
  walk_fetch-Walked fuel finished order s = (ok order, s, refl, (IsLater-refl s, refl))
  walk_fetch-Walked fuel walk_failed order s = (_, s, refl, IsLater-refl s)
  walk_fetch-Walked fuel (load c go) order s = elim (Option-cases (s.stored c)) [
    | inr (b, has) ↦
        let (r, t, ran, walked) = walk_fetch-Walked fuel (go b) (order ++ c ∷ []) s in
        (
          r,
          t,
          rw (walk_fetch, has) ran,
          Walked-on (load c go) c go b order s s t r refl has (IsLater-refl s) walked,
        )
    | inl absent ↦
        let t = (fetch_block syncer c s).1 in
        let later = fetch_block-IsLater c s absent in
        elim (Result-cases (fetch_block syncer c s).0) [
          | inr (e, failed) ↦
              let once = fetch_loop-gives fuel c s (err e) failed in
              (err e, t, rw (walk_fetch, absent, once) refl, later)
          | inl (_, done) ↦
              let once = fetch_loop-gives fuel c s (ok tt) done in
              elim (Option-cases (t.stored c)) [
                | inl missing ↦
                    (err not_found, t, rw (walk_fetch, absent, once, missing) refl, later)
                | inr (b, has) ↦
                    let (r, u, ran, walked) = walk_fetch-Walked fuel (go b) (order ++ c ∷ []) t in
                    (
                      r,
                      u,
                      rw (walk_fetch, absent, once, has) ran,
                      Walked-on (load c go) c go b order s t u r refl has later walked,
                    )
              ]
        ]
  ]

  -- What a sync with no error has done, and one with an error.
  abbrev pub Synced :
      Cid → Node → Bool → HttpState Cid Peer World → HttpState Cid Peer World → Type 0
  Synced c sel true s t =
      (w : Walk Cid (List ℕ)) × (cids : List Cid) × (syncer.traverse sel c ≡ some w)
      × (walk_stored t.stored w [] ≡ some cids)
      × (t.hook_calls ≡ (
          if syncer.has_block_hook
          then s.hook_calls ++ hook_each syncer.peer cids
          else s.hook_calls))
  Synced c sel false s t = s.hook_calls ≡ t.hook_calls

  abbrev pub IsSafe : HttpState Cid Peer World → HttpState Cid Peer World → Type 0
  IsSafe s t =
      ((c : Cid) (b : List ℕ) → s.stored c ≡ some b → t.stored c ≡ some b)
      × ((c : Cid) (b : List ℕ)
          → t.stored c ≡ some b
          → (s.stored c ≡ some b) ⊎ (syncer.sum c b ≡ some (syncer.digest c)))

  hooked_state-Synced :
      (c : Cid) (sel : Node) (w : Walk Cid (List ℕ)) (cids : List Cid)
      (s t : HttpState Cid Peer World)
      → syncer.traverse sel c ≡ some w
      → walk_stored t.stored w [] ≡ some cids
      → IsLater s t
      → (u : HttpState Cid Peer World)
      → u ≡ (
          if syncer.has_block_hook
          then record t { hook_calls = t.hook_calls ++ hook_each syncer.peer cids }
          else t)
      → IsSafe s u × Synced c sel true s u
  hooked_state-Synced c sel w cids s t compiled walked (keeps, new, hooks) u e =
      let same_store : u.stored ≡ t.stored = ground arith in
      (
        (
          λ d b had. subst (λ f. f d ≡ some b) (sym same_store) (keeps d b had),
          λ d b has. new d b (subst (λ f. f d ≡ some b) same_store has),
        ),
        (
          w,
          cids,
          compiled,
          subst (λ f. walk_stored f w [] ≡ some cids) (sym same_store) walked,
          ground (arith, hooks),
        ),
      )

  after_walk :
      (fuel : ℕ) (c : Cid) (sel : Node) (w : Walk Cid (List ℕ)) (s : HttpState Cid Peer World)
      (r : Result HttpError (List Cid)) (t : HttpState Cid Peer World)
      → syncer.traverse sel c ≡ some w
      → walk_fetch syncer (suc fuel) w [] s ≡ some (r, t)
      → Walked w [] s r t
      → (good : Bool) × (u : HttpState Cid Peer World) × (sync_http syncer (suc fuel) c sel s
          ≡ some (good, u))
        × IsSafe s u
        × Synced c sel good s u
  unfolding sync_http
  after_walk fuel c sel w s (err e) t compiled ran (keeps, new, hooks) =
      (false, t, rw (sync_http, compiled, ran) refl, (keeps, new), hooks)
  after_walk fuel c sel w s (ok cids) t compiled ran (later, walked) =
      let u : HttpState Cid Peer World =
        if syncer.has_block_hook
        then record t { hook_calls = t.hook_calls ++ hook_each syncer.peer cids }
        else t in
      let (safe, synced) = hooked_state-Synced c sel w cids s t compiled walked later u refl in
      (true, u, rw (sync_http, compiled, ran) refl, safe, synced)

  -- A sync over HTTP returns, with one round of the loop that fetches a block, and keeps the blocks
  -- that were stored; whether or not it fails, it has stored new bytes under a CID only if their digest
  -- by the CID's hash function is the CID's own. If it succeeds, the traversal by its selector can be
  -- done over what is then stored, and if there is a block hook, it was called for the CIDs of that
  -- traversal, once for each block and in its order; if it fails, the hook was not called.
  pub sync_http-Synced :
      (fuel : ℕ) (c : Cid) (sel : Node) (s : HttpState Cid Peer World)
      → (good : Bool) × (t : HttpState Cid Peer World) × (sync_http syncer (suc fuel) c sel s
          ≡ some (good, t))
        × IsSafe s t
        × Synced c sel good s t
  unfolding sync_http
  sync_http-Synced fuel c sel s = elim (Option-cases (syncer.traverse sel c)) [
    | inl bad ↦ (false, s, rw (sync_http, bad) refl, (λ d b h. h, λ d b h. inl h), refl)
    | inr (w, compiled) ↦
        let (r, t, ran, walked) = walk_fetch-Walked fuel w [] s in
        after_walk fuel c sel w s r t compiled ran walked
  ]
