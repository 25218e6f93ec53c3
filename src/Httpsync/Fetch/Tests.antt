-- ===== src/Httpsync/Fetch/Tests.antt =====
-- A sync over HTTP at concrete blocks: CIDs are numbers, and the digest of bytes is the first one.
use go_legs.Prelude.{
  ℕ, suc, ◌+◌, ◌≡◌, refl, Bool, true, false, Option, none, some, List, [], ◌∷◌, ℕ_discrete, err,
}
use go_legs.Traversal.{load, finished}
use go_legs.Head.{Response}
use go_legs.Httpsync.Fetch.{
  HttpState, HttpSyncer, rate_limit_pointer, digest_mismatch, sync_http, fetch_loop, store_block,
}
use go_legs.Httpsync.Fetch.Verified.{sync_http-Synced, IsSafe, Synced}

abbrev first_byte : List ℕ → Option ℕ
first_byte [] = none
first_byte (b ∷ bs) = some b

abbrev remote : List ℕ → ℕ → Option Response × ℕ
remote [] w = (none, w)
remote (c ∷ cs) w = (some (record { status_code = 200; body = c ∷ 99 ∷ [] }), w + 1)

-- The block 1 links to the block 2.
abbrev syncer : HttpSyncer ℕ ℕ ℕ ℕ (Unit {0}) ℕ
syncer = record {
  same_cid = ℕ_discrete;
  peer = 7;
  limiter = some 1;
  wait = λ l w. (true, w);
  is_request = λ r. true;
  respond = remote;
  cid_text = λ c. c ∷ [];
  is_node = λ c b. true;
  opens_writer = λ w. true;
  commits = λ c w. true;
  sum = λ c b. first_byte b;
  same_digest = ℕ_discrete;
  digest = λ c. c;
  has_block_hook = true;
  traverse = λ n c. some (load c (λ b. load (suc c) (λ b. finished)));
}

abbrev stored_two : ℕ → Option (List ℕ)
stored_two c = elim (ℕ_discrete 2 c) [ yes _ ↦ some (2 ∷ []) | no _ ↦ none ]

abbrev start : HttpState ℕ ℕ ℕ
start = record { stored = stored_two; requested = []; hook_calls = []; surroundings = 0 }

sync_http-Synced_example :
    (good : Bool) × (t : HttpState ℕ ℕ ℕ) × (sync_http syncer 1 1 tt start ≡ some (good, t))
    × IsSafe syncer start t
    × Synced syncer 1 tt good start t
sync_http-Synced_example = sync_http-Synced syncer 0 1 tt start

-- One request, two blocks.
sync_http_runs :
    (t : HttpState ℕ ℕ ℕ) × (sync_http syncer 1 1 tt start ≡ some (true, t))
    × (t.requested ≡ (1 ∷ []) ∷ [])
    × (t.hook_calls ≡ (7, 1) ∷ (7, 2) ∷ [])
unfolding sync_http ℕ_discrete
sync_http_runs = (_, refl, refl, refl)

-- A limiter that refuses ends the sync at once, though the loop is there to try again.
no_retry :
    fetch_loop (record syncer { wait = λ l w. (false, w) }) 5 1 start
    ≡ some (err rate_limit_pointer, start)
unfolding fetch_loop ℕ_discrete
no_retry = refl

mismatch : store_block syncer 3 (4 ∷ []) start ≡ (err digest_mismatch, start)
unfolding store_block ℕ_discrete
mismatch = refl
