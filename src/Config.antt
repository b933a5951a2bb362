-- ===== src/Config.antt =====
-- include/ota-api.h: the types of the public API, and the Kconfig options that the code reads.
use esp32s3_ota_api.Prelude.{ℕ, Bool, true, false, Option, none}
use esp32s3_ota_api.Prelude.Int.{ℤ}
use esp32s3_ota_api.Prelude.CString.{CString}
use esp32s3_ota_api.Err.{Err}

-- The options of the build: CONFIG_ESP_HTTPS_OTA_ALLOW_HTTP,
-- CONFIG_ESP_TLS_SKIP_SERVER_CERT_VERIFY, CONFIG_MBEDTLS_CERTIFICATE_BUNDLE,
-- CONFIG_ESP_HTTPS_OTA_ENABLE_PARTIAL_DOWNLOAD and the three CONFIG_OTA_API_ values.
pub record Kconfig : Type 0 where
  pub allow_http : Bool
  pub skip_server_cert_verify : Bool
  pub certificate_bundle : Bool
  pub enable_partial_download : Bool
  pub task_stack_size : ℕ
  pub task_priority : ℕ
  pub trial_timeout_s : ℕ

-- The fields of `esp_app_desc_t` that this repository reads.
pub record AppDesc : Type 0 where
  pub project_name : CString
  pub version : CString
  pub date : CString
  pub time : CString

-- `ota_api_progress_t`
pub record Progress : Type 0 where
  pub bytes_read : ℕ  -- size_t
  pub total_bytes : ℕ  -- size_t
  pub percent : ℤ  -- int

-- `ota_api_event_id_t`, each value with what `data` points to.
pub data Event : Type 0 where
  started : Event
  image_desc : AppDesc → Event
  progress : Progress → Event
  succeeded : Event
  failed : Err → Event

-- The events before the outcome of an update.
abbrev pub is_during : Event → Bool
is_during started = true
is_during (image_desc _) = true
is_during (progress _) = true
is_during _ = false

-- `ota_api_event_cb_t`, acting on the world; the number is the address `user_ctx`.
abbrev pub EventCb : Type 0 → Type 0
EventCb W = Event → ℕ → W → Err × W

-- `ota_api_config_t`. A pointer that may be NULL is an `Option`; an interface is its address.
pub record Config (W : Type 0) : Type 0 where
  pub url : Option CString
  pub cert_pem : Option CString
  pub skip_common_name_check : Bool
  pub bind_netif : Option ℕ
  pub task_stack_size : ℕ  -- uint32_t
  pub task_priority : ℕ  -- UBaseType_t
  pub event_cb : Option (EventCb W)
  pub user_ctx : ℕ
  pub progress_interval_ms : ℕ  -- uint32_t
  pub partial_download : Bool
  pub max_http_request_size : ℕ  -- size_t

-- `OTA_API_CONFIG_DEFAULT`
abbrev pub config_default : {W : Type 0} → Config W
config_default = record {
  url = none;
  cert_pem = none;
  skip_common_name_check = false;
  bind_netif = none;
  task_stack_size = 0;
  task_priority = 0;
  event_cb = none;
  user_ctx = 0;
  progress_interval_ms = 0;
  partial_download = false;
  max_http_request_size = 0;
}
