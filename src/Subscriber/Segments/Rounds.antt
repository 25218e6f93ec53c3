-- ===== src/Subscriber/Segments/Rounds.antt =====
-- subscriber.go, `SegSyncLoop`: one round of the loop, on a chain of blocks.
use go_legs.Prelude.{
  ℕ, suc, ◌+◌, ◌-◌, ◌≤◌, ◌<◌, ◌^◌, ◌≡◌, ◌⊎◌, ℤ, pos, true, false, leb, if◌then◌else◌, Option, none,
  some, ok, returns, add_int64-pos, ite, arith,
}
use go_legs.Selector.{limit_depth, with_recursion_limit}
use go_legs.Subscriber.Segments.{
  reset, Env, BlockHook, Progress, Plan, Ran, hook_all, is_stop, after_segment, seg_sync_loop,
}
use go_legs.Subscriber.Segments.Depth.{segment_depth, decide_depth-pos, depth_plan}
use go_legs.Subscriber.Segments.Chain.{walk_rest, last_link, go_on-last_link}

module _ {Cid Peer Node Key Err W : Type 0} (env : Env Cid Peer Node Key Err W) where
  -- Whether a link is followed: neither `cid.Undef` nor the stop link is.
  abbrev pub go_on : Option Cid → Cid → Option Cid
  go_on stop q =
      if ite (env.same_cid q env.undef) true false
      then none
      else if is_stop env stop q
      then none
      else some q

module _ {Cid Peer Node Key Err W H : Type 0} (env : Env Cid Peer Node Key Err W)
    (bh : BlockHook Cid Peer Err H) where
  abbrev pub plan_of : ℕ → ℕ → Option Cid → Node → Plan Cid Peer Node Err H
  plan_of = depth_plan bh

  pub after_segment-walk :
      (prev : Cid → Cid) (s d a k : ℕ) (stop : Option Cid) (sel : Node) (c : Cid)
      (pr : Progress Cid Err H)
      → d < 2 ^ 63
      → a ≤ d
      → (d - a < s) ⊎ (suc k ≡ s)
      → pr.seg_sync.error ≡ none
      → pr.seg_sync.next_sync_cid ≡ some (last_link prev (go_on env stop) k c)
      → after_segment env (plan_of s d stop sel) (pos (suc k)) (pos a) pr
        ≡ ok (elim (walk_rest prev (go_on env stop) (suc k) c) [
          | none ↦ none
          | some q ↦ if leb d a then none else some (q, pos (segment_depth s (d - a)))
        ])
  unfolding after_segment
  after_segment-walk prev s d a k stop sel c pr small le next fine named = ground (
    arith,
    fine,
    named,
    decide_depth-pos {Err = Err} s d a (suc k) small le next,
    go_on-last_link prev (go_on env stop) k c,
  )

  -- How the loop goes on from the decision behind a segment.
  abbrev pub carry_on :
      ℕ → Plan Cid Peer Node Err H → ℕ → W → Progress Cid Err H → Option (Cid × ℤ) → Ran Cid Err W H
  carry_on fuel plan a w pr none = returns (ok pr.synced_cids) (w, pr.hook_state)
  carry_on fuel plan a w pr (some (q, nd)) = seg_sync_loop env fuel plan q nd (pos a) w pr

  pub seg_sync_loop-round :
      (fuel s d k a : ℕ) (stop : Option Cid) (sel new : Node) (c : Cid) (w : W)
      (pr reached : Progress Cid Err H) (next : Option (Cid × ℤ))
      → a + suc k < 2 ^ 63
      → with_recursion_limit env.ipld (some sel) (limit_depth (pos (suc k))) ≡ some (some new)
      → (env.sync w c (some new)).failure ≡ none
      → hook_all
          (some bh)
          (env.sync w c (some new)).hooked
          (record pr { seg_sync = record { next_sync_cid = none; error = none } })
        ≡ reached
      → after_segment env (plan_of s d stop sel) (pos (suc k)) (pos (a + suc k)) reached ≡ ok next
      → seg_sync_loop env (suc fuel) (plan_of s d stop sel) c (pos (suc k)) (pos a) w pr
        ≡ carry_on fuel
            (plan_of s d stop sel)
            (a + suc k)
            (env.sync w c (some new)).world
            reached
            next
  unfolding seg_sync_loop reset
  seg_sync_loop-round fuel s d k a stop sel new c w pr reached none small relimited fine hooks e =
      ground (arith, relimited, fine, hooks, add_int64-pos a (suc k) small, e)
  seg_sync_loop-round fuel s d k a stop sel new c w pr reached (some (q, nd)) small relimited fine
        hooks e =
      ground (arith, relimited, fine, hooks, add_int64-pos a (suc k) small, e)
