-- ===== src/Http/Verification.antt =====
-- src/ota-api-http.c: which updates are refused, and how the server is authenticated otherwise.
use mathlib.Core.Option
use esp32s3_ota_api.Prelude.{
  ◌≡◌, ◌↔◌, Bool, true, false, not, ◌&&◌, ◌||◌, none, some, arith, if◌then◌else◌, is_some,
}
use esp32s3_ota_api.Prelude.CString.{CString, BeginsWith}
use esp32s3_ota_api.Prelude.CString.Compare.{strncasecmp-BeginsWith}
use esp32s3_ota_api.Err.{Err, esp_ok, invalid_arg}
use esp32s3_ota_api.Config.{Kconfig, Config}
use esp32s3_ota_api.Http.{
  http_scheme, is_plain_http, AuthMode, verify_none, verify_required, SslConfig,
  skip_server_verify_attach, HttpConfig, zeroed, Net, build_http_config,
}

-- A URL counts as plain HTTP exactly when it begins with "http://" in any mix of cases; so an
-- "https://" URL and one shorter than the scheme do not.
pub is_plain_http_iff : (url : CString) → (is_plain_http url ≡ true) ↔ BeginsWith url http_scheme
unfolding is_plain_http
is_plain_http_iff url = strncasecmp-BeginsWith url http_scheme (omega arith)

-- What esp-tls reads of the configuration once it has armed `verify_required`.
abbrev pub armed : SslConfig
armed = record { authmode = verify_required; ca_chain = none }

abbrev pub authmode_of : HttpConfig → AuthMode
authmode_of http = elim http.crt_bundle_attach [
  | none ↦ verify_required
  | some attach ↦ (attach armed).1.authmode
]

module _ (N : Net) (K : Kconfig) {W : Type 0} where
  -- The rows of the table in README.md, "HTTPS to a server with a self-signed certificate".
  abbrev pub accepted : CString → Config W → Bool
  accepted url config =
      if is_plain_http url
      then K.allow_http
      else is_some config.cert_pem || K.skip_server_cert_verify || K.certificate_bundle

  abbrev pub built : CString → Config W → Err × HttpConfig
  built url config = build_http_config N K url config zeroed

  -- Setup ends with ESP_OK or ESP_ERR_INVALID_ARG, and with ESP_OK exactly for a plain HTTP URL
  -- where the build allows those, or another URL with a certificate, the option to skip
  -- verification, or the certificate bundle.
  pub build_outcome :
      (url : CString) (config : Config W)
      → (built url config).0 ≡ (if accepted url config then esp_ok else invalid_arg)
  unfolding build_http_config
  build_outcome url config = ground arith

  abbrev pub unverified : Config W → Bool
  unverified config = not (is_some config.cert_pem) && K.skip_server_cert_verify

  -- For a URL that is not plain HTTP and a setup that succeeds: esp_https_ota finds a certificate
  -- or a hook, so its own test passes; the handshake is left without verification exactly when no
  -- certificate is given and the build asks to skip it, provided that the bundle's own hook keeps
  -- verification on; and the common name goes unchecked only then or on the caller's wish.
  pub built-authmode :
      (url : CString) (config : Config W)
      → (N.esp_crt_bundle_attach armed).1.authmode ≡ verify_required
      → is_plain_http url ≡ false
      → (built url config).0 ≡ esp_ok
      → let http = (built url config).1 in
        ((is_some http.cert_pem || is_some http.crt_bundle_attach) ≡ true)
        × (authmode_of http ≡ (if unverified config then verify_none else verify_required))
        × (http.skip_cert_common_name_check ≡ (config.skip_common_name_check || unverified config))
  unfolding build_http_config skip_server_verify_attach
  built-authmode url config bundle https ok = ground arith

  -- A setup that succeeds carries over the URL, and binds the connection to the interface that the
  -- caller names, or to none; a certificate is handed on only where there is TLS to check it.
  pub built-fields :
      (url : CString) (config : Config W)
      → (built url config).0 ≡ esp_ok
      → let http = (built url config).1 in
        (http.url ≡ some url)
        × (http.if_name ≡ Option.map N.impl_name config.bind_netif)
        × (http.cert_pem ≡ (if is_plain_http url then none else config.cert_pem))
  unfolding build_http_config
  built-fields url config ok = ground arith
