-- ===== src/Http.antt =====
-- src/ota-api-http.c: the HTTP client setup. Log lines are left out, but for those of the event
-- handler, which does nothing else.
pub mod Verification
mod Tests
use esp32s3_ota_api.Prelude.{ℕ, Bool, true, false, Option, none, some, if◌then◌else◌, is_some}
use esp32s3_ota_api.Prelude.CString.{CString, codes, strncasecmp, is_zero}
use esp32s3_ota_api.Err.{Err, esp_ok, invalid_arg, is_ok}
use esp32s3_ota_api.Config.{Kconfig, Config}

-- `esp_http_client_event_t`: the id, with the fields that the handler reads. `unknown` is any id
-- that the `switch` does not name.
pub data HttpEvent : Type 0 where
  error on_connected header_sent : HttpEvent
  on_header : CString → CString → HttpEvent
  on_headers_complete : HttpEvent
  on_data : ℕ → HttpEvent
  on_finish disconnected redirect : HttpEvent
  unknown : ℕ → HttpEvent

-- A debug line: the name that it prints, and its arguments.
pub data LogLine : Type 0 where
  plain : CString → LogLine
  header : CString → CString → LogLine
  length_of_data : ℕ → LogLine

unfoldable pub http_event_handler : HttpEvent → Option LogLine × Err
http_event_handler error = (some (plain (codes "HTTP_EVENT_ERROR")), esp_ok)
http_event_handler on_connected = (some (plain (codes "HTTP_EVENT_ON_CONNECTED")), esp_ok)
http_event_handler header_sent = (some (plain (codes "HTTP_EVENT_HEADER_SENT")), esp_ok)
http_event_handler (on_header key value) = (some (header key value), esp_ok)
http_event_handler on_headers_complete =
    (some (plain (codes "HTTP_EVENT_ON_HEADERS_COMPLETE")), esp_ok)
http_event_handler (on_data len) = (some (length_of_data len), esp_ok)
http_event_handler on_finish = (some (plain (codes "HTTP_EVENT_ON_FINISH")), esp_ok)
http_event_handler disconnected = (some (plain (codes "HTTP_EVENT_DISCONNECTED")), esp_ok)
http_event_handler redirect = (some (plain (codes "HTTP_EVENT_REDIRECT")), esp_ok)
http_event_handler (unknown id) = (none, esp_ok)

abbrev pub http_scheme : CString
http_scheme = codes "http://"

unfoldable pub is_plain_http : CString → Bool
unfolding strncasecmp
is_plain_http url = is_zero (strncasecmp url http_scheme 7)

-- `MBEDTLS_SSL_VERIFY_NONE`, `_OPTIONAL` and `_REQUIRED`, the field of `mbedtls_ssl_config` that
-- the hook below writes.
pub data AuthMode : Type 0 where
  verify_none verify_optional verify_required : AuthMode

pub record SslConfig : Type 0 where
  pub authmode : AuthMode
  pub ca_chain : Option CString

-- A `crt_bundle_attach` hook.
abbrev pub Attach : Type 0
Attach = SslConfig → Err × SslConfig

unfoldable pub skip_server_verify_attach : Attach
skip_server_verify_attach conf = (esp_ok, record conf { authmode = verify_none })

-- The fields of `esp_http_client_config_t` that the component sets; `if_name` points to `ifr_name`.
pub record HttpConfig : Type 0 where
  pub url : Option CString
  pub event_handler : Option (HttpEvent → Option LogLine × Err)
  pub keep_alive_enable : Bool
  pub skip_cert_common_name_check : Bool
  pub cert_pem : Option CString
  pub crt_bundle_attach : Option Attach
  pub if_name : Option CString

-- `esp_http_client_config_t http_config = {0}`
abbrev pub zeroed : HttpConfig
zeroed = record {
  url = none;
  event_handler = none;
  keep_alive_enable = false;
  skip_cert_common_name_check = false;
  cert_pem = none;
  crt_bundle_attach = none;
  if_name = none;
}

-- The code of ESP-IDF that the setup takes: the hook of the certificate bundle, and the name that
-- `esp_netif_get_netif_impl_name` leaves in its buffer.
pub record Net : Type 0 where
  pub esp_crt_bundle_attach : Attach
  pub impl_name : ℕ → CString

module _ (N : Net) (K : Kconfig) {W : Type 0} where
  -- The `if` on the scheme and the certificate. The preprocessor's choices are tests of `K`.
  choose_verification : CString → Config W → HttpConfig → Err × HttpConfig
  choose_verification url config http =
      if is_plain_http url
      then (if K.allow_http then (esp_ok, http) else (invalid_arg, http))
      else if is_some config.cert_pem
      then (esp_ok, record http { cert_pem = config.cert_pem })
      else if K.skip_server_cert_verify
      then (
        esp_ok,
        record http {
          crt_bundle_attach = some skip_server_verify_attach;
          skip_cert_common_name_check = true;
        },
      )
      else if K.certificate_bundle
      then (esp_ok, record http { crt_bundle_attach = some N.esp_crt_bundle_attach })
      else (invalid_arg, http)

  bind_interface : Config W → HttpConfig → HttpConfig
  bind_interface config http = elim config.bind_netif [
    | none ↦ http
    | some netif ↦ record http { if_name = some (N.impl_name netif) }
  ]

  -- `config->url`, which `ota_api_update` has found not to be NULL, is handed over as `url`.
  unfoldable pub build_http_config : CString → Config W → HttpConfig → Err × HttpConfig
  unfolding choose_verification bind_interface
  build_http_config url config http =
      let (err, http') = choose_verification url config (record http {
        url = some url;
        event_handler = some http_event_handler;
        keep_alive_enable = true;
        skip_cert_common_name_check = config.skip_common_name_check;
      }) in
      if is_ok err then (esp_ok, bind_interface config http') else (err, http')
