-- ===== src/Subscriber/Segments/Tests.antt =====
-- subscriber.go, `handle`, on a chain of numbered blocks: block 0 is `cid.Undef`.
use go_legs.Prelude.{
  ℕ, suc, ◌-◌, ◌≡◌, refl, pos, Option, none, some, [], ◌∷◌, map, ok, returns, if◌then◌else◌, arith,
  ℕ_discrete,
}
use go_legs.Selector.{RecursionLimit, limit_none, limit_depth, get_recursion_limit, get_stop_node}
use go_legs.Selector.Trees.{Tree, trees, trees-IsIpld}
use go_legs.Selector.Tests.{up_to_7, up_to_7-built}
use go_legs.Subscriber.Segments.{
  Env, BlockHook, Synced, set_next_sync_cid, handle_selected, is_stop,
}
use go_legs.Subscriber.Segments.Chain.{walk}
use go_legs.Subscriber.Segments.Bounds.{Asks, logged, handle_selected-Asks}
use go_legs.Subscriber.Segments.OnChain.{IsChain, handle_selected-walk}
use go_legs.Subscriber.Segments.Rounds.{go_on}

abbrev pub before : ℕ → ℕ
before c = c - 1

abbrev no_sync : Env ℕ ℕ Tree ℕ ℕ (Unit {0})
no_sync = record {
  ipld = trees;
  same_cid = ℕ_discrete;
  undef = 0;
  sync = λ w c sel. record { world = w; hooked = []; failure = some 1 };
  sync_rec_limit = limit_none;
}

-- The blocks that a sync fetches from peer 3.
abbrev fetched : Option RecursionLimit → Option ℕ → ℕ → Synced ℕ ℕ ℕ (Unit {0})
fetched (some (limit_depth (pos k))) stop c = record {
  world = tt;
  hooked = map (λ b. (3, b)) (walk before (go_on no_sync stop) k c);
  failure = none;
}
fetched _ stop c = record { world = tt; hooked = []; failure = some 1 }

abbrev pub chain : Env ℕ ℕ Tree ℕ ℕ (Unit {0})
chain = record no_sync {
  sync = λ w c sel. fetched (get_recursion_limit trees sel) (get_stop_node trees sel) c;
}

chain-IsChain : IsChain chain before 3
chain-IsChain = record {
  traverses =
      λ w c sel k stop limited stops. (ground (arith, limited, stops), ground (arith, limited));
}

-- The hook counts the blocks.
abbrev pub counting : BlockHook ℕ ℕ ℕ ℕ
counting h p c = (suc h, set_next_sync_cid (before c) ∷ [])

-- Five blocks from 9 on, in segments of two, up to block 7.
handle_selected-walk_example :
    (z : Unit {0} × ℕ) × (handle_selected chain 5 9 (some up_to_7) (some counting) (pos 2) tt 0
      ≡ returns
          (ok (if is_stop chain (some 7) 9 then [] else walk before (go_on chain (some 7)) 5 9))
          z)
handle_selected-walk_example =
    handle_selected-walk trees-IsIpld counting before 3 (λ h q c. refl) chain-IsChain 5 4 (pos 2)
      none (some 7) up_to_7 9 tt 0 up_to_7-built (omega arith) (omega arith)

-- The same, for the depths that the syncer is asked for.
handle_selected-Asks_example :
    Asks
      (handle_selected (logged chain) 5 9 (some up_to_7) (some counting) (pos 2) (tt, []) 0)
      2
      5
      []
handle_selected-Asks_example =
    handle_selected-Asks chain trees-IsIpld counting 5 5 2 none (some 7) up_to_7 9 tt 0
      up_to_7-built (omega arith) (omega arith) (omega arith)
