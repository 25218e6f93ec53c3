-- ===== src/Subscriber/Segments/OnChain.antt =====
-- subscriber.go, `handle`, on a chain of blocks: a sync by segment gives the caller what a sync in one
-- go does.
use mathlib.Core.List.{append_assoc}
use go_legs.Prelude.{
  ℕ, zero, suc, ◌+◌, ◌-◌, ◌≤◌, ◌<◌, ◌^◌, ◌≡◌, refl, ap, sym, ◌∙◌, inl, inr, ℤ, pos, leb,
  if◌then◌else◌, Option, none, some, [], ◌∷◌, ◌++◌, map, ok, returns, arith, Option-cases,
  Bool-cases,
}
use go_legs.Selector.{
  RecursionLimit, limit_depth, get_stop_node, get_recursion_limit, with_recursion_limit,
  explore_recursive_with_stop_node,
}
use go_legs.Selector.Ipld.{IsIpld}
use go_legs.Selector.Built.{with_recursion_limit-reads, read-explore_recursive}
use go_legs.Subscriber.Segments.{
  set_next_sync_cid, Env, BlockHook, Progress, hook_all, is_stop, seg_sync_loop, sync_in_one_go,
  handle_selected,
}
use go_legs.Subscriber.Segments.Depth.{segment_depth, segment_limit-depth}
use go_legs.Subscriber.Segments.Rounds.{go_on, plan_of, after_segment-walk, seg_sync_loop-round}
use go_legs.Subscriber.Segments.Chain.{
  walk, walk_rest, walk-ended, walk-continued, last_link, hook_all-walk,
}

module _ {Cid Peer Node Key Err W : Type 0} (env : Env Cid Peer Node Key Err W) where
  -- `Sync` succeeds, and gives the hook as many blocks of the chain of `prev` as the depth in the
  -- selector is, up to its stop link.
  pub record IsChain (prev : Cid → Cid) (p : Peer) : Type 0 where
    pub traverses :
        (w : W) (c : Cid) (sel : Node) (k : ℕ) (stop : Option Cid)
        → get_recursion_limit env.ipld (some sel) ≡ some (limit_depth (pos (suc k)))
        → get_stop_node env.ipld (some sel) ≡ stop
        → ((env.sync w c (some sel)).hooked
            ≡ map (λ b. (p, b)) (walk prev (go_on env stop) (suc k) c))
          × ((env.sync w c (some sel)).failure ≡ none)

module _ {Cid Peer Node Key Err W H : Type 0} {env : Env Cid Peer Node Key Err W}
    (laws : IsIpld env.ipld) (bh : BlockHook Cid Peer Err H) (prev : Cid → Cid) (p : Peer)
    (names_next : (h : H) (q : Peer) (c : Cid) → (bh h q c).1 ≡ set_next_sync_cid (prev c) ∷ [])
    (chain : IsChain env prev p) where
  -- What a segment leaves behind.
  abbrev Behind : Option Cid → Node → ℕ → Cid → W → Progress Cid Err H → Type 0
  Behind stop sel k c w pr =
      (new : Node) × (h : H) × (with_recursion_limit env.ipld (some sel) (limit_depth (pos (suc k)))
        ≡ some (some new))
      × ((env.sync w c (some new)).failure ≡ none)
      × (hook_all (some bh) (env.sync w c (some new)).hooked pr ≡ record {
        synced_cids = pr.synced_cids ++ walk prev (go_on env stop) (suc k) c;
        seg_sync = record {
          next_sync_cid = some (last_link prev (go_on env stop) k c);
          error = pr.seg_sync.error;
        };
        hook_state = h;
      })

  segment-Behind :
      (limit : RecursionLimit) (sequence : Option Node) (stop : Option Cid) (sel : Node) (k : ℕ)
      (c : Cid) (w : W) (pr : Progress Cid Err H)
      → explore_recursive_with_stop_node env.ipld limit sequence stop ≡ some sel
      → Behind stop sel k c w pr
  segment-Behind limit sequence stop sel k c w pr built =
      let (new, relimited, limited, stops) =
        with_recursion_limit-reads laws limit (pos (suc k)) sequence stop sel built in
      let (hooks, fine) = chain.traverses w c new k stop limited stops in
      let (h, reached) = hook_all-walk bh prev (go_on env stop) p names_next k c pr in
      (new, h, relimited, fine, ap (λ l. hook_all (some bh) l pr) hooks ∙ reached)

  -- The state behind a segment.
  abbrev reached_by : Option Cid → ℕ → Cid → H → Progress Cid Err H → Progress Cid Err H
  reached_by stop k c h pr = record {
    synced_cids = pr.synced_cids ++ walk prev (go_on env stop) (suc k) c;
    seg_sync = record { next_sync_cid = some (last_link prev (go_on env stop) k c); error = none };
    hook_state = h;
  }

  -- The loop from a segment on, with `r` of the depth left, on fuel for as many rounds.
  seg_sync_loop-walk :
      (limit : RecursionLimit) (sequence : Option Node) (stop : Option Cid) (sel : Node) (s d : ℕ)
      → explore_recursive_with_stop_node env.ipld limit sequence stop ≡ some sel
      → 0 < s
      → d < 2 ^ 63
      → (fuel a r : ℕ) (c : Cid) (w : W) (pr : Progress Cid Err H) → a + r ≡ d
      → 0 < r
      → r ≤ fuel
      → (z : W × H) × (seg_sync_loop env fuel
            (plan_of env bh s d stop sel)
            c
            (pos (segment_depth s r))
            (pos a)
            w
            pr
          ≡ returns (ok (pr.synced_cids ++ walk prev (go_on env stop) r c)) z)
  seg_sync_loop-walk limit sequence stop sel s d built some_s small zero a r c w pr sum some_r
        fuel_ok =
      absurd (omega arith)
  seg_sync_loop-walk limit sequence stop sel s d built some_s small (suc fuel) a r c w pr sum some_r
        fuel_ok =
      let k = segment_depth s r - 1 in
      let go = go_on env stop in
      let n : segment_depth s r ≡ suc k = ground arith in
      let start : Progress Cid Err H = record pr {
        seg_sync = record { next_sync_cid = none; error = none };
      } in
      let (new, h, relimited, fine, hooks) =
        segment-Behind limit sequence stop sel k c w start built in
      let reached = reached_by stop k c h pr in
      let round = λ (o : Option (Cid × ℤ)).
        seg_sync_loop-round env bh fuel s d k a stop sel new c w pr reached o (ground arith)
          relimited fine hooks in
      let decision =
        after_segment-walk env bh prev s d (a + suc k) k stop sel c reached small (ground arith)
          (ground arith) refl refl in
      let count =
        ap (λ m. seg_sync_loop env (suc fuel) (plan_of env bh s d stop sel) c (pos m) (pos a) w pr)
          n in
      let world = (env.sync w c (some new)).world in
      elim (Option-cases (walk_rest prev go (suc k) c)) [
        | inl ended ↦ (
          (world, h),
          count
              ∙ round none (decision ∙ ground (arith, ended))
              ∙ ap (λ l. returns (ok (pr.synced_cids ++ l)) (world, h))
                  (sym (walk-ended prev go (suc k) r c (ground arith) ended)),
        )
        | inr (q, rest) ↦ elim (Bool-cases (leb d (a + suc k))) [
          | inl whole ↦
              let all : r ≡ suc k = ground arith in
              (
                (world, h),
                count
                    ∙ round none (decision ∙ ground (arith, rest, whole))
                    ∙ ap (λ m. returns (ok (pr.synced_cids ++ walk prev go m c)) (world, h))
                        (sym all),
              )
          | inr left ↦
              let rest_of : d - (a + suc k) ≡ r - suc k = omega arith in
              let (z, ih) =
                seg_sync_loop-walk limit sequence stop sel s d built some_s small fuel (a + suc k)
                  (r - suc k) q world reached (ground arith) (ground arith) (ground arith) in
              (
                z,
                count
                    ∙ round (some (q, pos (segment_depth s (d - (a + suc k)))))
                        (decision ∙ ground (arith, rest, left))
                    ∙ ap
                        (λ m.
                          seg_sync_loop env fuel (plan_of env bh s d stop sel) q
                            (pos (segment_depth s m)) (pos (a + suc k)) world reached)
                        rest_of
                    ∙ ih
                    ∙ ap (λ l. returns (ok l) z)
                        (append_assoc pr.synced_cids (walk prev go (suc k) c)
                            (walk prev go (r - suc k) q)
                          ∙ ap (λ l. pr.synced_cids ++ l)
                              (sym (walk-continued prev go (suc k) r c q (ground arith) rest))),
              )
        ]
      ]

  -- On a chain of blocks that Sync fetches without an error, with a hook that names the next
  -- block by each call, a sync with a selector that ExploreRecursiveWithStopNode built of the
  -- depth d + 1 (an int64) returns the CIDs of the first d + 1 blocks, in order, up to the stop
  -- link or cid.Undef, and none if the first is the stop link. It is the same in one go and in
  -- segments, whatever the segment depth, and the loop ends within d + 1 rounds.
  pub handle_selected-walk :
      (fuel d : ℕ) (segdl : ℤ) (sequence : Option Node) (stop : Option Cid) (sel : Node) (c : Cid)
      (w : W) (h : H)
      → explore_recursive_with_stop_node env.ipld (limit_depth (pos (suc d))) sequence stop
        ≡ some sel
      → suc d < 2 ^ 63
      → suc d ≤ fuel
      → (z : W × H) × (handle_selected env fuel c (some sel) (some bh) segdl w h
          ≡ returns
              (ok (if is_stop env stop c then [] else walk prev (go_on env stop) (suc d) c))
              z)
  unfolding handle_selected sync_in_one_go
  handle_selected-walk fuel d segdl sequence stop sel c w h built small fuel_ok =
      let (limited, stops) =
        read-explore_recursive laws (limit_depth (pos (suc d))) sequence stop sel built in
      let start : Progress Cid Err H = record {
        synced_cids = [];
        seg_sync = record { next_sync_cid = some c; error = none };
        hook_state = h;
      } in
      let (hooks, fine) = chain.traverses w c sel d stop limited stops in
      let (k, reached) = hook_all-walk bh prev (go_on env stop) p names_next d c start in
      let got = ap (λ l. hook_all (some bh) l start) hooks ∙ reached in
      elim (Bool-cases (is_stop env stop c)) [
        | inl nothing ↦ ((w, h), ground (arith, stops, nothing))
        | inr some_work ↦ elim (segment_limit-depth env bh sel segdl (suc d) limited) [
          | inl one_go ↦ (
            ((env.sync w c (some sel)).world, k),
            ground (arith, stops, some_work, one_go, got, fine),
          )
          | inr (s, same, some_s, less, by_segment) ↦
              let (z, ran) =
                seg_sync_loop-walk (limit_depth (pos (suc d))) sequence stop sel s (suc d) built
                  some_s small fuel 0 (suc d) c w start (omega arith) (omega arith) fuel_ok in
              let first : segment_depth s (suc d) ≡ s = ground arith in
              (z, ground (arith, stops, some_work, by_segment, same, first, ran))
        ]
      ]
