-- ===== src/Subscriber/Segments/Depth.antt =====
-- subscriber.go, `handle`: the depths of the segments of a sync with a depth limit.
use go_legs.Prelude.{
  ℕ, ◌-◌, ◌≤◌, ◌<◌, ◌^◌, ◌≡◌, refl, inl, inr, ◌⊎◌, ℤ, pos, negsuc, ◌&&◌, ltb, leb, if◌then◌else◌,
  Option, none, some, ok, sub_int64-pos, arith, Bool-cases,
}
use go_legs.Selector.{limit_depth, get_recursion_limit}
use go_legs.Subscriber.Segments.{
  Env, BlockHook, Plan, next_depth_after, decide_depth, segment_limit,
}

-- The depth of the next segment, of at most `s`, when `r` is left.
abbrev pub segment_depth : ℕ → ℕ → ℕ
segment_depth s r = if ltb r s then r else s

-- The decision behind a segment that came to `a` of the depth `d`.
pub decide_depth-pos :
    {Err : Type 0} (s d a nd : ℕ)
    → d < 2 ^ 63
    → a ≤ d
    → (d - a < s) ⊎ (nd ≡ s)
    → decide_depth {Err = Err} (pos s) (limit_depth (pos d)) (pos a) (pos nd)
      ≡ ok (if leb d a then none else some (pos (segment_depth s (d - a))))
unfolding decide_depth next_depth_after
decide_depth-pos s d a nd small le next = ground (arith, sub_int64-pos d a le small)

module _ {Cid Peer Node Err H : Type 0} (bh : BlockHook Cid Peer Err H) where
  -- The plan of a sync in segments of depth `s`, of `d` in all.
  abbrev pub depth_plan : ℕ → ℕ → Option Cid → Node → Plan Cid Peer Node Err H
  depth_plan s d stop sel = record {
    bh = some bh;
    segdl = pos s;
    orig_limit = limit_depth (pos d);
    stop = stop;
    sel = some sel;
  }

module _ {Cid Peer Node Key Err W H : Type 0} (env : Env Cid Peer Node Key Err W)
    (bh : BlockHook Cid Peer Err H) where
  pub segment_limit-depth :
      (sel : Node) (segdl : ℤ) (d : ℕ)
      → get_recursion_limit env.ipld (some sel) ≡ some (limit_depth (pos d))
      → (segment_limit env (some bh) segdl (some sel) ≡ none)
        ⊎ ((s : ℕ) × (segdl ≡ pos s)
            × (0 < s)
            × (s < d)
            × (segment_limit env (some bh) segdl (some sel) ≡ some (limit_depth (pos d))))
  unfolding segment_limit
  segment_limit-depth sel (pos s) d e = elim (Bool-cases (ltb 0 s && ltb s d)) [
    | inl yes_both ↦ inr (s, refl, ground arith, ground arith, ground (arith, e))
    | inr none_both ↦ inl (ground (arith, e))
  ]
  segment_limit-depth sel (negsuc s) d e = inl (ground (arith, e))
