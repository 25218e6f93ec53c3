-- ===== src/Subscriber/Explicit/Cfg.antt =====
-- option.go: the options of a single `Sync`.
use go_legs.Prelude.{ℤ, Bool, true, Option, List, [], ◌∷◌}

-- `syncCfg`
pub record SyncCfg (Limiter Hook : Type 0) : Type 0 where
  pub always_update_latest : Bool
  pub rate_limiter : Option Limiter
  pub scoped_block_hook : Option Hook
  pub seg_depth_limit : ℤ

module _ {Limiter Hook : Type 0} where
  unfoldable pub always_update_latest : SyncCfg Limiter Hook → SyncCfg Limiter Hook
  always_update_latest sc = record sc { always_update_latest = true }

  unfoldable pub scoped_block_hook : Option Hook → SyncCfg Limiter Hook → SyncCfg Limiter Hook
  scoped_block_hook hook sc = record sc { scoped_block_hook = hook }

  unfoldable pub scoped_rate_limiter : Option Limiter → SyncCfg Limiter Hook → SyncCfg Limiter Hook
  scoped_rate_limiter l sc = record sc { rate_limiter = l }

  unfoldable pub scoped_segment_depth_limit : ℤ → SyncCfg Limiter Hook → SyncCfg Limiter Hook
  scoped_segment_depth_limit depth sc = record sc { seg_depth_limit = depth }

  -- The loop over the options in `Sync`.
  unfoldable pub apply_all :
      List (SyncCfg Limiter Hook → SyncCfg Limiter Hook)
      → SyncCfg Limiter Hook
      → SyncCfg Limiter Hook
  apply_all [] sc = sc
  apply_all (opt ∷ opts) sc = apply_all opts (opt sc)
