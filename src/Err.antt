-- ===== src/Err.antt =====
-- esp_err_t: the codes that the component returns, compares with, or passes on. Every other code
-- that ESP-IDF or an application's callback may produce is `other`.
use esp32s3_ota_api.Prelude.{ℕ, Bool, true, false}

pub data Err : Type 0 where
  esp_ok esp_fail : Err
  no_mem invalid_arg invalid_state not_supported not_finished : Err
  validate_failed rollback_failed https_ota_in_progress : Err
  nvs_no_free_pages nvs_new_version_found : Err
  other : ℕ → Err

-- `err == ESP_OK`
abbrev pub is_ok : Err → Bool
is_ok esp_ok = true
is_ok _ = false

-- `err == ESP_ERR_HTTPS_OTA_IN_PROGRESS`
abbrev pub is_in_progress : Err → Bool
is_in_progress https_ota_in_progress = true
is_in_progress _ = false
