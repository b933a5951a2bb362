-- ===== src/Http/Tests.antt =====
-- src/ota-api-http.c on a few URLs.
use esp32s3_ota_api.Prelude.{◌≡◌, ◌↔◌, refl, true, false, none, some, ◌||◌, is_some}
use esp32s3_ota_api.Prelude.CString.{CString, codes, BeginsWith}
use esp32s3_ota_api.Err.{esp_ok}
use esp32s3_ota_api.Http.{http_scheme, is_plain_http, verify_required, build_http_config}
use esp32s3_ota_api.Http.Verification.{
  is_plain_http_iff, built, authmode_of, build_outcome, built-authmode, built-fields,
}
use esp32s3_ota_api.Examples.{platform, kconfig, config, url}

abbrev shouted : CString
shouted = codes "HtTp://h/f"

plain_shouted : is_plain_http shouted ≡ true
unfolding is_plain_http
plain_shouted = refl

plain_https : is_plain_http url ≡ false
unfolding is_plain_http
plain_https = refl

is_plain_http_iff_example : (is_plain_http shouted ≡ true) ↔ BeginsWith shouted http_scheme
is_plain_http_iff_example = is_plain_http_iff shouted

ready : (built platform.net kconfig url config).0 ≡ esp_ok
unfolding build_http_config is_plain_http
ready = refl

build_outcome_run : (built platform.net kconfig url config).0 ≡ esp_ok
unfolding is_plain_http
build_outcome_run = build_outcome platform.net kconfig url config

built-authmode_example :
    let http = (built platform.net kconfig url config).1 in
    ((is_some http.cert_pem || is_some http.crt_bundle_attach) ≡ true)
    × (authmode_of http ≡ verify_required)
    × (http.skip_cert_common_name_check ≡ false)
built-authmode_example = built-authmode platform.net kconfig url config refl plain_https ready

built-fields_run :
    let http = (built platform.net kconfig url config).1 in
    (http.url ≡ some url) × (http.if_name ≡ none) × (http.cert_pem ≡ none)
unfolding is_plain_http
built-fields_run = built-fields platform.net kconfig url config ready
