-- ===== src/Subscriber/Segments/Bounds.antt =====
-- subscriber.go, `handle`: how deep a sync with a depth limit goes, whatever the syncer and the hook do.
use mathlib.Core.List.{append_assoc}
use go_legs.Prelude.{
  ℕ, zero, suc, ◌+◌, ◌-◌, ◌≤◌, ◌<◌, ◌^◌, ◌≡◌, ap, ◌∙◌, inl, inr, ◌⊎◌, ℤ, pos, leb, if◌then◌else◌,
  Option, none, some, List, [], ◌∷◌, ◌++◌, map, ok, err, returns, Result, add_int64-pos, arith,
  Option-cases, Bool-cases, All, Result-cases,
}
use go_legs.Selector.{
  RecursionLimit, limit_depth, get_recursion_limit, explore_recursive_with_stop_node,
}
use go_legs.Selector.Ipld.{IsIpld}
use go_legs.Selector.Built.{with_recursion_limit-reads, read-explore_recursive}
use go_legs.Subscriber.Segments.{
  Failure, sync_failed, reset, Env, BlockHook, Progress, Ran, hook_all, is_stop, after_segment,
  seg_sync_loop, sync_in_one_go, segment_limit, handle_selected,
}
use go_legs.Subscriber.Segments.Depth.{segment_depth, decide_depth-pos, depth_plan}

abbrev pub sum : List ℕ → ℕ
sum [] = 0
sum (k ∷ ks) = k + sum ks

-- The limits of these depths.
abbrev pub limits : List ℕ → List (Option RecursionLimit)
limits ks = map (λ k. some (limit_depth (pos k))) ks

module _ {Cid Peer Node Key Err W : Type 0} (env : Env Cid Peer Node Key Err W) where
  -- The syncer, with a log of the recursion limits that it is asked for.
  abbrev pub logged : Env Cid Peer Node Key Err (W × List (Option RecursionLimit))
  logged = record {
    ipld = env.ipld;
    same_cid = env.same_cid;
    undef = env.undef;
    sync = λ w c sel.
        (let synced = env.sync w.0 c sel in
          record {
            world = (synced.world, w.1 ++ get_recursion_limit env.ipld sel ∷ []);
            hooked = synced.hooked;
            failure = synced.failure;
          });
    sync_rec_limit = env.sync_rec_limit;
  }

-- A sync that returns, and that has asked for depths of at most `s` each and `r` in all.
abbrev pub Asks :
    {Cid Err W H : Type 0}
    → Ran Cid Err (W × List (Option RecursionLimit)) H
    → ℕ
    → ℕ
    → List (Option RecursionLimit)
    → Type 0
Asks {Cid} {Err} {W} {H} ran s r log =
    (a : Result (Failure Err) (List Cid)) × (w : W) × (h : H) × (ks : List ℕ) × (ran
      ≡ returns a ((w, log ++ limits ks), h))
    × (sum ks ≤ r)
    × All (λ k. k ≤ s) ks

-- A round whose segment is the last.
once-Asks :
    {Cid Err W H : Type 0} (a : Result (Failure Err) (List Cid)) (w : W) (h : H) (k s r : ℕ)
    (log : List (Option RecursionLimit)) (ran : Ran Cid Err (W × List (Option RecursionLimit)) H)
    → k ≤ r
    → k ≤ s
    → ran ≡ returns a ((w, log ++ some (limit_depth (pos k)) ∷ []), h)
    → Asks ran s r log
once-Asks a w h k s r log ran le_r le_s e = (a, w, h, k ∷ [], e, omega arith, (le_s, tt))

module _ {Cid Peer Node Key Err W H : Type 0} (env : Env Cid Peer Node Key Err W)
    (laws : IsIpld env.ipld) (bh : BlockHook Cid Peer Err H) where
  after_segment-depth :
      (s d a nd : ℕ) (stop : Option Cid) (sel : Node) (pr : Progress Cid Err H) (q : Cid) (z : ℤ)
      → d < 2 ^ 63
      → a ≤ d
      → (d - a < s) ⊎ (nd ≡ s)
      → after_segment (logged env) (depth_plan bh s d stop sel) (pos nd) (pos a) pr
        ≡ ok (some (q, z))
      → (a < d) × (z ≡ pos (segment_depth s (d - a)))
  unfolding after_segment
  after_segment-depth s d a nd stop sel pr q z small le next e =
      ground (arith, decide_depth-pos {Err = Err} s d a nd small le next)

  seg_sync_loop-Asks :
      (limit : RecursionLimit) (sequence : Option Node) (stop : Option Cid) (sel : Node) (s d : ℕ)
      → explore_recursive_with_stop_node env.ipld limit sequence stop ≡ some sel
      → 0 < s
      → d < 2 ^ 63
      → (fuel a r : ℕ) (c : Cid) (w : W) (log : List (Option RecursionLimit))
        (pr : Progress Cid Err H)
      → a + r ≡ d
      → 0 < r
      → r ≤ fuel
      → Asks
          (seg_sync_loop
            (logged env)
            fuel
            (depth_plan bh s d stop sel)
            c
            (pos (segment_depth s r))
            (pos a)
            (w, log)
            pr)
          s
          r
          log
  unfolding seg_sync_loop
  seg_sync_loop-Asks limit sequence stop sel s d built some_s small zero a r c w log pr total some_r
        fuel_ok =
      absurd (omega arith)
  seg_sync_loop-Asks limit sequence stop sel s d built some_s small (suc fuel) a r c w log pr total
        some_r fuel_ok =
      let k = segment_depth s r in
      let (new, relimited, limited, stops) =
        with_recursion_limit-reads laws limit (pos k) sequence stop sel built in
      let synced = env.sync w c (some new) in
      let reached = hook_all (some bh) synced.hooked (record pr { seg_sync = reset pr.seg_sync }) in
      let depth = add_int64-pos a k (ground arith) in
      let finished = λ (b : Result (Failure Err) (List Cid)).
        once-Asks b synced.world reached.hook_state k s r log
          (seg_sync_loop (logged env) (suc fuel) (depth_plan bh s d stop sel) c (pos k) (pos a)
            (w, log) pr)
          (ground arith) (ground arith) in
      elim (Option-cases synced.failure) [
        | inr (e, failed) ↦
            finished (err (sync_failed e)) (ground (arith, relimited, limited, failed))
        | inl fine ↦
            elim (Result-cases (
              after_segment (logged env) (depth_plan bh s d stop sel) (pos k) (pos (a + k))
                reached)) [
                  | inr (e, bad) ↦
                      finished (err e) (ground (arith, relimited, limited, fine, depth, bad))
                  | inl (none, whole) ↦
                      finished (ok reached.synced_cids)
                        (ground (arith, relimited, limited, fine, depth, whole))
                  | inl (some (q, z), more) ↦
                      let (less, same) =
                        after_segment-depth s d (a + k) k stop sel reached q z small (ground arith)
                          (ground arith) more in
                      let rest_of : d - (a + k) ≡ r - k = omega arith in
                      let asked = some (limit_depth (pos k)) in
                      let (b, w', h', ks, ran, in_all, each) =
                        seg_sync_loop-Asks limit sequence stop sel s d built some_s small fuel
                          (a + k) (r - k) q synced.world (log ++ asked ∷ []) reached (ground arith)
                          (ground arith) (ground arith) in
                      let plan = depth_plan bh s d stop sel in
                      let step : seg_sync_loop (logged env) (suc fuel) plan c (pos k) (pos a)
                            (w, log) pr
                          ≡ seg_sync_loop (logged env) fuel plan q z (pos (a + k))
                              (synced.world, log ++ asked ∷ []) reached =
                        ground (arith, relimited, limited, fine, depth, more) in
                      let further =
                        ap
                          (λ m.
                            seg_sync_loop (logged env) fuel plan q m (pos (a + k))
                              (synced.world, log ++ asked ∷ []) reached)
                          (same ∙ ap (λ m. pos (segment_depth s m)) rest_of) in
                      (
                        b,
                        w',
                        h',
                        k ∷ ks,
                        step
                            ∙ further
                            ∙ ran
                            ∙ ap (λ l. returns b ((w', l), h'))
                                (append_assoc log (asked ∷ []) (limits ks)),
                        ground arith,
                        (ground arith, each),
                      )
                ]
      ]

  segment_limit-pos :
      (sel : Node) (s d : ℕ)
      → get_recursion_limit env.ipld (some sel) ≡ some (limit_depth (pos d))
      → 0 < s
      → segment_limit (logged env) (some bh) (pos s) (some sel)
        ≡ (if leb d s then none else some (limit_depth (pos d)))
  unfolding segment_limit
  segment_limit-pos sel s d limited some_s = ground (arith, limited)

  -- Whatever the syncer and the hook do, a sync with a hook, a positive segment depth and a
  -- selector that ExploreRecursiveWithStopNode built of the depth d (an int64) returns, within d
  -- rounds, and the depths that it has asked the syncer for are at most the segment depth each
  -- and d in all.
  pub handle_selected-Asks :
      (fuel d s : ℕ) (sequence : Option Node) (stop : Option Cid) (sel : Node) (c : Cid) (w : W)
      (h : H)
      → explore_recursive_with_stop_node env.ipld (limit_depth (pos d)) sequence stop ≡ some sel
      → 0 < s
      → d < 2 ^ 63
      → d ≤ fuel
      → Asks (handle_selected (logged env) fuel c (some sel) (some bh) (pos s) (w, []) h) s d []
  unfolding handle_selected sync_in_one_go
  handle_selected-Asks fuel d s sequence stop sel c w h built some_s small fuel_ok =
      let (limited, stops) =
        read-explore_recursive laws (limit_depth (pos d)) sequence stop sel built in
      let start : Progress Cid Err H = record {
        synced_cids = [];
        seg_sync = record { next_sync_cid = some c; error = none };
        hook_state = h;
      } in
      let synced = env.sync w c (some sel) in
      let reached = hook_all (some bh) synced.hooked start in
      elim (Bool-cases (is_stop env stop c)) [
        | inl nothing ↦ (ok [], w, h, [], ground (arith, stops, nothing), omega arith, tt)
        | inr some_work ↦ elim (Bool-cases (leb d s)) [
          | inl shallow ↦
              once-Asks
                (elim synced.failure [
                  | none ↦ ok reached.synced_cids
                  | some e ↦ err (sync_failed e)
                ])
                synced.world reached.hook_state d s d []
                (handle_selected (logged env) fuel c (some sel) (some bh) (pos s) (w, []) h)
                (omega arith) (ground arith)
                (ground (
                  arith,
                  stops,
                  some_work,
                  segment_limit-pos sel s d limited some_s,
                  shallow,
                  limited,
                ))
          | inr deep ↦
              let (a, w', h', ks, ran, in_all, each) =
                seg_sync_loop-Asks (limit_depth (pos d)) sequence stop sel s d built some_s small
                  fuel 0 d c w [] start (omega arith) (ground arith) fuel_ok in
              let first : segment_depth s d ≡ s = ground arith in
              (
                a,
                w',
                h',
                ks,
                ground (
                  arith,
                  stops,
                  some_work,
                  segment_limit-pos sel s d limited some_s,
                  deep,
                  first,
                  ran,
                ),
                in_all,
                each,
              )
        ]
      ]
