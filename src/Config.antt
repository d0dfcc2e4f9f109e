-- ===== src/Config.antt =====
-- The settings of src/config/app_config.ts that the modelled parts read. Reading them from the
-- environment is not modelled.
use driveparts_websockets.Prelude.{ℕ, Bool, String}

pub record AppConfig : Type 0 where
  pub ecommerce_customer_rate_limit_window_seconds : ℕ
  pub ecommerce_customer_rate_limit_max : ℕ
  pub redis_socket_presence_time_to_live_seconds : ℕ
  pub presence_persist_interval_seconds : ℕ
  pub redis_key_prefix : String
  pub redis_sync_cache_time_to_live_seconds : ℕ
  pub socket_enforce_permissions : Bool
  pub socket_max_in_flight_events : ℕ
  pub max_chat_message_length : ℕ
