-- ===== src/Subscriber/Options.antt =====
-- option.go: the options of a subscriber.
use go_legs.Prelude.{ℕ, ℤ, Bool, Option, List, [], ◌∷◌, Result, ok, ◌>>=◌}

-- The types of what other packages give: topics, data transfer managers, HTTP clients, recursion limits,
-- rate limiters, block hooks and latest sync handlers.
pub record Kinds : Type 1 where
  pub Peer : Type 0
  pub Topic : Type 0
  pub Manager : Type 0
  pub Client : Type 0
  pub Limit : Type 0
  pub Limiter : Type 0
  pub Hook : Type 0
  pub Latest : Type 0

-- `config`
pub record Settings (K : Kinds) : Type 0 where
  pub addr_ttl : ℕ
  pub allow_peer : Option (K.Peer → Bool)
  pub filter_ips : Bool
  pub topic : Option K.Topic
  -- The data transfer manager, with its graphsync exchange.
  pub dt_manager : Option K.Manager
  pub block_hook : Option K.Hook
  pub http_client : Option K.Client
  pub sync_rec_limit : K.Limit
  pub idle_handler_ttl : ℕ
  pub latest_sync_handler : Option K.Latest
  pub rate_limiter_for : Option (K.Peer → Option K.Limiter)
  pub resend_announce : Bool
  pub seg_depth_limit : ℤ

module _ (K : Kinds) where
  -- `Option`; the error is a text.
  abbrev pub Setting : Type 0
  Setting = Settings K → Result (List ℕ) (Settings K)

  -- `config.apply`
  unfoldable pub apply_settings : List Setting → Setting
  apply_settings [] c = ok c
  apply_settings (opt ∷ opts) c = opt c >>= apply_settings opts

  unfoldable pub set_addr_ttl : ℕ → Setting
  set_addr_ttl ttl c = ok (record c { addr_ttl = ttl })

  unfoldable pub set_peer_filter : Option (K.Peer → Bool) → Setting
  set_peer_filter allow c = ok (record c { allow_peer = allow })

  unfoldable pub set_filter_ips : Bool → Setting
  set_filter_ips enable c = ok (record c { filter_ips = enable })

  unfoldable pub set_topic : Option K.Topic → Setting
  set_topic topic c = ok (record c { topic = topic })

  unfoldable pub set_dt_manager : Option K.Manager → Setting
  set_dt_manager manager c = ok (record c { dt_manager = manager })

  unfoldable pub set_block_hook : Option K.Hook → Setting
  set_block_hook hook c = ok (record c { block_hook = hook })

  unfoldable pub set_http_client : Option K.Client → Setting
  set_http_client client c = ok (record c { http_client = client })

  unfoldable pub set_sync_recursion_limit : K.Limit → Setting
  set_sync_recursion_limit limit c = ok (record c { sync_rec_limit = limit })

  unfoldable pub set_idle_handler_ttl : ℕ → Setting
  set_idle_handler_ttl ttl c = ok (record c { idle_handler_ttl = ttl })

  unfoldable pub set_latest_sync_handler : Option K.Latest → Setting
  set_latest_sync_handler h c = ok (record c { latest_sync_handler = h })

  unfoldable pub set_rate_limiter_for : Option (K.Peer → Option K.Limiter) → Setting
  set_rate_limiter_for for c = ok (record c { rate_limiter_for = for })

  unfoldable pub set_resend_announce : Bool → Setting
  set_resend_announce enable c = ok (record c { resend_announce = enable })

  unfoldable pub set_segment_depth_limit : ℤ → Setting
  set_segment_depth_limit depth c = ok (record c { seg_depth_limit = depth })
