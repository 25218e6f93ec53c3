-- ===== src/Subscriber/Segments/Chain.antt =====
-- subscriber.go, `handle`, on a chain of blocks whose hook names the next one: what a sync by segment
-- gives the caller against a walk of the chain.
use mathlib.Core.List.{append_assoc, append-nil}
use go_legs.Prelude.{
  ℕ, zero, suc, ◌+◌, ◌-◌, ◌≤◌, ◌≡◌, refl, ap, ◌∙◌, inl, inr, Option, none, some, List, [], ◌∷◌,
  ◌++◌, map, arith, Option-cases,
}
use go_legs.Subscriber.Segments.{
  set_next_sync_cid, act, act_all, BlockHook, Progress, hook, hook_all,
}

-- A chain of links: `prev` is the link in a block, and `go_on` tells whether to follow it.
module _ {Cid : Type 0} (prev : Cid → Cid) (go_on : Cid → Option Cid) where
  -- The first `k` blocks of the chain from `c` on.
  unfoldable pub walk : ℕ → Cid → List Cid
  walk zero c = []
  walk (suc k) c = c ∷ elim (go_on (prev c)) [ none ↦ [] | some q ↦ walk k q ]

  -- The block behind the first `k`.
  unfoldable pub walk_rest : ℕ → Cid → Option Cid
  walk_rest zero c = some c
  walk_rest (suc k) c = elim (go_on (prev c)) [ none ↦ none | some q ↦ walk_rest k q ]

  abbrev pub walk_on : ℕ → Option Cid → List Cid
  walk_on m none = []
  walk_on m (some q) = walk m q

  pub walk_add : (k m : ℕ) (c : Cid) → walk (k + m) c ≡ walk k c ++ walk_on m (walk_rest k c)
  unfolding walk walk_rest
  walk_add zero m c = ground arith
  walk_add (suc k) m c =
      let count : suc k + m ≡ suc (k + m) = omega arith in
      ap (λ n. walk n c) count ∙ elim (Option-cases (go_on (prev c))) [
        | inl e ↦ rw (walk, walk_rest, e) refl
        | inr (q, e) ↦ rw (walk, walk_rest, e) (ap (λ l. c ∷ l) (walk_add k m q))
      ]

  walk-split : (n r : ℕ) (c : Cid) → n ≤ r → walk r c ≡ walk n c ++ walk_on (r - n) (walk_rest n c)
  walk-split n r c le =
      let count : r ≡ n + (r - n) = omega arith in ap (λ m. walk m c) count ∙ walk_add n (r - n) c

  pub walk-ended : (n r : ℕ) (c : Cid) → n ≤ r → walk_rest n c ≡ none → walk r c ≡ walk n c
  walk-ended n r c le ended =
      walk-split n r c le ∙ ap (λ o. walk n c ++ walk_on (r - n) o) ended ∙ append-nil (walk n c)

  pub walk-continued :
      (n r : ℕ) (c q : Cid) → n ≤ r → walk_rest n c ≡ some q → walk r c ≡ walk n c ++ walk (r - n) q
  walk-continued n r c q le rest =
      walk-split n r c le ∙ ap (λ o. walk n c ++ walk_on (r - n) o) rest

  -- The link in the last of the first `k + 1` blocks.
  unfoldable pub last_link : ℕ → Cid → Cid
  last_link zero c = prev c
  last_link (suc k) c = elim (go_on (prev c)) [ none ↦ prev c | some q ↦ last_link k q ]

  pub go_on-last_link : (k : ℕ) (c : Cid) → go_on (last_link k c) ≡ walk_rest (suc k) c
  unfolding last_link walk_rest
  go_on-last_link zero c = elim (Option-cases (go_on (prev c))) [
    | inl e ↦ ground (arith, e)
    | inr (q, e) ↦ ground (arith, e)
  ]
  go_on-last_link (suc k) c = elim (Option-cases (go_on (prev c))) [
    | inl e ↦ ground (arith, e)
    | inr (q, e) ↦ ground (arith, e, go_on-last_link k q)
  ]

module _ {Cid Peer Err H : Type 0} (bh : BlockHook Cid Peer Err H) (prev : Cid → Cid)
    (go_on : Cid → Option Cid) (p : Peer)
    (names_next : (h : H) (q : Peer) (c : Cid)
      → (bh h q c).1 ≡ set_next_sync_cid (prev c) ∷ []) where
  -- What the hook leaves behind the blocks of a walk.
  pub hook_all-walk :
      (k : ℕ) (c : Cid) (pr : Progress Cid Err H)
      → (h : H) × (hook_all (some bh) (map (λ b. (p, b)) (walk prev go_on (suc k) c)) pr ≡ record {
        synced_cids = pr.synced_cids ++ walk prev go_on (suc k) c;
        seg_sync = record {
          next_sync_cid = some (last_link prev go_on k c);
          error = pr.seg_sync.error;
        };
        hook_state = h;
      })
  unfolding hook_all hook act_all act walk last_link
  hook_all-walk zero c pr = (
    (bh pr.hook_state p c).0,
    elim (Option-cases (go_on (prev c))) [
      | inl e ↦ ground (arith, e, names_next pr.hook_state p c)
      | inr (q, e) ↦ ground (arith, e, names_next pr.hook_state p c)
    ],
  )
  hook_all-walk (suc k) c pr =
      let reached = hook (some bh) p c pr in
      elim (Option-cases (go_on (prev c))) [
        | inl e ↦ ((bh pr.hook_state p c).0, ground (arith, e, names_next pr.hook_state p c))
        | inr (q, e) ↦
            let (h, ih) = hook_all-walk k q reached in
            (
              h,
              ground (
                arith,
                e,
                ih,
                names_next pr.hook_state p c,
                append_assoc pr.synced_cids (c ∷ []) (walk prev go_on (suc k) q),
              ),
            )
      ]
