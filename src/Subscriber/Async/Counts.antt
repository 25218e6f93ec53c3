-- ===== src/Subscriber/Async/Counts.antt =====
-- subscriber.go, `handleAsync`: counts of the goroutines of a handler.
use go_legs.Prelude.{ℕ, ◌+◌, ◌≡◌, Bool, true, false, if◌then◌else◌, List, [], ◌∷◌, ◌++◌, arith}
use go_legs.Subscriber.Async.{Phase, waiting, locked, handling, sending, is_defined}

abbrev pub bit : Bool → ℕ
bit true = 1
bit false = 0

-- How much a list of phases comes to.
module _ {Cid Syncer : Type 0} (f : Phase Cid Syncer → ℕ) where
  unfoldable pub total : List (Phase Cid Syncer) → ℕ
  total [] = 0
  total (p ∷ ps) = f p + total ps

  pub total-append : (xs ys : List (Phase Cid Syncer)) → total (xs ++ ys) ≡ total xs + total ys
  unfolding total
  total-append [] ys = omega arith
  total-append (x ∷ xs) ys = omega (arith, total-append xs ys)

  pub total-insert :
      (xs ys : List (Phase Cid Syncer)) (p : Phase Cid Syncer)
      → total (xs ++ p ∷ ys) ≡ f p + (total xs + total ys)
  unfolding total
  total-insert xs ys p = omega (arith, total-append xs (p ∷ ys))

-- Whether a goroutine has yet to take what is pending, and whether it holds `latestSyncMu`.
abbrev pub is_to_take : {Cid Syncer : Type 0} → Phase Cid Syncer → ℕ
is_to_take waiting = 1
is_to_take locked = 1
is_to_take (handling c s) = 0
is_to_take (sending c l) = 0

abbrev pub is_holding : {Cid Syncer : Type 0} → Phase Cid Syncer → ℕ
is_holding waiting = 0
is_holding locked = 1
is_holding (handling c s) = 1
is_holding (sending c l) = 1

-- How many steps a goroutine has left.
abbrev pub steps_left : {Cid Syncer : Type 0} → Phase Cid Syncer → ℕ
steps_left waiting = 4
steps_left locked = 3
steps_left (handling c s) = 2
steps_left (sending c l) = 1

-- Whether a goroutine syncs `cid.Undef`.
module _ {Cid Syncer : Type 0} (same_cid : Discrete Cid) (undef : Cid) where
  abbrev pub is_astray : Phase Cid Syncer → ℕ
  is_astray waiting = 0
  is_astray locked = 0
  is_astray (handling c s) = if is_defined same_cid undef c then 0 else 1
  is_astray (sending c l) = if is_defined same_cid undef c then 0 else 1
