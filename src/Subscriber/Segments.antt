-- ===== src/Subscriber/Segments.antt =====
-- subscriber.go, `segmentedSync` and `handler.handle`: a sync of one publisher, in one go or in
-- segments of limited depth. `Syncer` is a parameter: what a sync does to the world `W`, the blocks
-- that it gives the block hook, and its error. The hook has a state `H` of its own.
pub mod Chain
pub mod Depth
pub mod Rounds
pub mod OnChain
pub mod Bounds
pub mod Tests
use go_legs.Prelude.{
  ℕ, zero, suc, ℤ, pos, Bool, true, false, not, ◌&&◌, if◌then◌else◌, Option, none, some, List, [],
  ◌∷◌, ◌++◌, Result, ok, err, Outcome, returns, blocks, panics, is_some, ltb_ℤ, leb_ℤ, add_int64,
  sub_int64, ite,
}
use go_legs.Selector.{
  RecursionLimit, limit_none, limit_depth, limit_other, explore_recursive_with_stop_node,
  get_stop_node, get_recursion_limit, with_recursion_limit,
}
use go_legs.Selector.Ipld.{IpldOps}

-- `segmentedSync`; a nil pointer or error is `none`.
pub record SegmentedSync (Cid Err : Type 0) : Type 0 where
  pub next_sync_cid : Option Cid
  pub error : Option Err

-- A call of the `SegmentSyncActions`.
pub data Action (Cid Err : Type 0) : Type 0 where
  set_next_sync_cid : Cid → Action Cid Err
  fail_sync : Option Err → Action Cid Err

module _ {Cid Err : Type 0} where
  unfoldable pub act : Action Cid Err → SegmentedSync Cid Err → SegmentedSync Cid Err
  act (set_next_sync_cid c) ss = record ss { next_sync_cid = some c }
  act (fail_sync e) ss = record ss { error = e }

  unfoldable pub act_all : List (Action Cid Err) → SegmentedSync Cid Err → SegmentedSync Cid Err
  unfolding act
  act_all [] ss = ss
  act_all (a ∷ actions) ss = act_all actions (act a ss)

  unfoldable pub reset : SegmentedSync Cid Err → SegmentedSync Cid Err
  reset ss = record { next_sync_cid = none; error = none }

-- What a call of `Sync` leaves behind.
pub record Synced (Cid Peer Err W : Type 0) : Type 0 where
  pub world : W
  pub hooked : List (Peer × Cid)
  pub failure : Option Err

pub data Failure (Err : Type 0) : Type 0 where
  -- The error of `Sync`, and that of the hook.
  sync_failed hook_failed : Err → Failure Err
  -- No segment selector of this depth.
  no_segment_selector : ℤ → Failure Err
  unknown_limit_mode : Failure Err

-- What a `handle` uses: IPLD, CIDs, the syncer, and `syncRecLimit`.
pub record Env (Cid Peer Node Key Err W : Type 0) : Type 0 where
  pub ipld : IpldOps Node Cid Key
  pub same_cid : Discrete Cid
  pub undef : Cid
  pub sync : W → Cid → Option Node → Synced Cid Peer Err W
  pub sync_rec_limit : RecursionLimit

-- `SegmentBlockHookFunc`, with the state of the hook.
abbrev pub BlockHook : Type 0 → Type 0 → Type 0 → Type 0 → Type 0
BlockHook Cid Peer Err H = H → Peer → Cid → H × List (Action Cid Err)

-- The variables of a `handle` that its hook writes.
pub record Progress (Cid Err H : Type 0) : Type 0 where
  pub synced_cids : List Cid
  pub seg_sync : SegmentedSync Cid Err
  pub hook_state : H

module _ {Cid Peer Err H : Type 0} where
  -- The closure `hook`.
  unfoldable pub hook :
      Option (BlockHook Cid Peer Err H) → Peer → Cid → Progress Cid Err H → Progress Cid Err H
  unfolding act_all
  hook none p c pr = record pr { synced_cids = pr.synced_cids ++ c ∷ [] }
  hook (some bh) p c pr =
      let (h, actions) = bh pr.hook_state p c in
      record {
        synced_cids = pr.synced_cids ++ c ∷ [];
        seg_sync = act_all actions pr.seg_sync;
        hook_state = h;
      }

  unfoldable pub hook_all :
      Option (BlockHook Cid Peer Err H)
      → List (Peer × Cid)
      → Progress Cid Err H
      → Progress Cid Err H
  unfolding hook
  hook_all bh [] pr = pr
  hook_all bh ((p, c) ∷ pcs) pr = hook_all bh pcs (hook bh p c pr)

abbrev pub Ran : Type 0 → Type 0 → Type 0 → Type 0 → Type 0
Ran Cid Err W H = Outcome (W × H) (Result (Failure Err) (List Cid))

-- `nextDepth` behind a segment, if the limit lets the loop go on.
unfoldable pub next_depth_after : ℤ → ℤ → ℤ → ℤ → Option ℤ
next_depth_after segdl limit depth_so_far next_depth =
    let remaining = sub_int64 limit depth_so_far in
    if leb_ℤ limit depth_so_far
    then none
    else some (if ltb_ℤ remaining segdl then remaining else next_depth)

-- The decision at the end of a round: the next depth, or the result.
unfoldable pub decide_depth :
    {Err : Type 0} → ℤ → RecursionLimit → ℤ → ℤ → Result (Failure Err) (Option ℤ)
unfolding next_depth_after
decide_depth segdl limit_none depth_so_far next_depth = ok (some next_depth)
decide_depth segdl (limit_depth d) depth_so_far next_depth =
    ok (next_depth_after segdl d depth_so_far next_depth)
decide_depth segdl limit_other depth_so_far next_depth = err unknown_limit_mode

-- The parameters of the loop that stay as they are.
pub record Plan (Cid Peer Node Err H : Type 0) : Type 0 where
  pub bh : Option (BlockHook Cid Peer Err H)
  pub segdl : ℤ
  pub orig_limit : RecursionLimit
  pub stop : Option Cid
  pub sel : Option Node

module _ {Cid Peer Node Key Err W : Type 0} (env : Env Cid Peer Node Key Err W) where
  -- `stopNodeOK && stopNode == c`
  abbrev pub is_stop : Option Cid → Cid → Bool
  is_stop none c = false
  is_stop (some stop) c = ite (env.same_cid stop c) true false

  -- `origLimit`, if the sync is by segment.
  unfoldable pub segment_limit :
      {H : Type 0} → Option (BlockHook Cid Peer Err H) → ℤ → Option Node → Option RecursionLimit
  segment_limit none segdl sel = none
  segment_limit (some _) segdl sel =
      if ltb_ℤ (pos 0) segdl
      then elim (get_recursion_limit env.ipld sel) [
        | none ↦ none
        | some limit_none ↦ some limit_none
        | some (limit_depth d) ↦ if leb_ℤ d segdl then none else some (limit_depth d)
        | some limit_other ↦ some limit_other
      ]
      else none

  -- The stop link of a wrapped selector; the argument is what `GetLatestSync` finds.
  unfoldable pub latest_sync_link : Option Cid → Option Cid
  latest_sync_link none = none
  latest_sync_link (some latest) = ite (env.same_cid latest env.undef) none (some latest)

  -- The selector of a `handle`; `none` is a panic.
  unfoldable pub handle_selector : Bool → Option Node → Option Cid → Option (Option Node)
  unfolding latest_sync_link
  handle_selector false sel latest = some sel
  handle_selector true sel latest =
      elim (explore_recursive_with_stop_node env.ipld env.sync_rec_limit sel
        (latest_sync_link latest)) [ none ↦ none | some n ↦ some (some n) ]

module _ {Cid Peer Node Key Err W H : Type 0} (env : Env Cid Peer Node Key Err W) where
  -- What follows the sync of a segment: the CID and the depth of the next, or the result.
  unfoldable pub after_segment :
      Plan Cid Peer Node Err H
      → ℤ
      → ℤ
      → Progress Cid Err H
      → Result (Failure Err) (Option (Cid × ℤ))
  after_segment plan next_depth depth_so_far pr = elim pr.seg_sync.error [
    | some e ↦ err (hook_failed e)
    | none ↦ elim pr.seg_sync.next_sync_cid [
      | none ↦ ok none
      | some c ↦
          if ite (env.same_cid c env.undef) true false
          then ok none
          else if is_stop env plan.stop c
          then ok none
          else elim (decide_depth plan.segdl plan.orig_limit depth_so_far next_depth) [
            | err e ↦ err e
            | ok none ↦ ok none
            | ok (some d) ↦ ok (some (c, d))
          ]
    ]
  ]

  -- `SegSyncLoop`, on fuel: `blocks` if it is used up.
  unfoldable pub seg_sync_loop :
      ℕ → Plan Cid Peer Node Err H → Cid → ℤ → ℤ → W → Progress Cid Err H → Ran Cid Err W H
  seg_sync_loop zero plan c next_depth depth_so_far w pr = blocks
  seg_sync_loop (suc fuel) plan c next_depth depth_so_far w pr =
      elim (with_recursion_limit env.ipld plan.sel (limit_depth next_depth)) [
        | none ↦ panics
        | some none ↦ returns (err (no_segment_selector next_depth)) (w, pr.hook_state)
        | some (some segment_sel) ↦
            (let synced = env.sync w c (some segment_sel) in
              let reached =
                hook_all plan.bh synced.hooked (record pr { seg_sync = reset pr.seg_sync }) in
              let depth = add_int64 depth_so_far next_depth in
              elim synced.failure [
                | some e ↦ returns (err (sync_failed e)) (synced.world, reached.hook_state)
                | none ↦ elim (after_segment plan next_depth depth reached) [
                  | err e ↦ returns (err e) (synced.world, reached.hook_state)
                  | ok none ↦ returns (ok reached.synced_cids) (synced.world, reached.hook_state)
                  | ok (some (next, d)) ↦ seg_sync_loop fuel plan next d depth synced.world reached
                ]
              ])
      ]

  -- The sync in one go.
  unfoldable pub sync_in_one_go :
      Option (BlockHook Cid Peer Err H)
      → Cid
      → Option Node
      → W
      → Progress Cid Err H
      → Ran Cid Err W H
  sync_in_one_go bh c sel w pr =
      let synced = env.sync w c sel in
      let reached = hook_all bh synced.hooked pr in
      elim synced.failure [
        | some e ↦ returns (err (sync_failed e)) (synced.world, reached.hook_state)
        | none ↦ returns (ok reached.synced_cids) (synced.world, reached.hook_state)
      ]

  -- `handle` behind the selector.
  unfoldable pub handle_selected :
      ℕ → Cid → Option Node → Option (BlockHook Cid Peer Err H) → ℤ → W → H → Ran Cid Err W H
  handle_selected fuel next_cid sel bh segdl w h =
      let start : Progress Cid Err H = record {
        synced_cids = [];
        seg_sync = record { next_sync_cid = some next_cid; error = none };
        hook_state = h;
      } in
      if is_stop env (get_stop_node env.ipld sel) next_cid
      then returns (ok []) (w, h)
      else elim (segment_limit env bh segdl sel) [
        | none ↦ sync_in_one_go bh next_cid sel w start
        | some limit ↦
            seg_sync_loop fuel
              (record {
                bh = bh;
                segdl = segdl;
                orig_limit = limit;
                stop = get_stop_node env.ipld sel;
                sel = sel;
              })
              next_cid segdl (pos 0) w start
      ]

  -- `handle`
  unfoldable pub handle :
      ℕ
      → Cid
      → Option Node
      → Bool
      → Option Cid
      → Option (BlockHook Cid Peer Err H)
      → ℤ
      → W
      → H
      → Ran Cid Err W H
  handle fuel next_cid sel wrap_sel latest bh segdl w h =
      elim (handle_selector env wrap_sel sel latest) [
        | none ↦ panics
        | some selected ↦ handle_selected fuel next_cid selected bh segdl w h
      ]
