-- ===== src/Update/Objections/Tests.antt =====
-- A run of `ota_api_update` whose callback refuses the image.
use esp32s3_ota_api.Prelude.{◌≡◌, refl, true, false, some, [], ◌∷◌}
use esp32s3_ota_api.Err.{Err, esp_ok, validate_failed}
use esp32s3_ota_api.Slot.{initial, claim_update_slot, release_update_slot, abort_requested}
use esp32s3_ota_api.Config.{Event, EventCb, Config}
use esp32s3_ota_api.Http.{is_plain_http, build_http_config}
use esp32s3_ota_api.System.{
  Sys, external, claimed, configured, begun, dispatched, described, aborted, released,
}
use esp32s3_ota_api.System.Sharing.{interfere}
use esp32s3_ota_api.Report.{dispatch_event}
use esp32s3_ota_api.Examples.{Server, platform, kconfig, config, device, desc, more, url}
use esp32s3_ota_api.Update.{
  claim, release, check_incoming_image, prepare, settle, ota_config, session, run_update, notify,
  announce, claimed_update, update,
}
use esp32s3_ota_api.Update.Objections.{Heeded, update-Heeded}

-- It answers the outcome with an error too.
abbrev refuses : EventCb Server
refuses Event.started user_ctx w = (esp_ok, w)
refuses event user_ctx w = (validate_failed, w)

abbrev choosy : Config Server
choosy = record config { event_cb = some refuses }

abbrev refused : Err × Sys Server
refused = (
  validate_failed,
  record {
    shared = record { slot = initial; other = false };
    world = record { script = more ∷ []; fetched = 0; asked = [] };
    trace =
        dispatched (Event.failed validate_failed) validate_failed
        ∷ released
        ∷ aborted
        ∷ dispatched (Event.image_desc desc) validate_failed
        ∷ described esp_ok
        ∷ dispatched Event.started esp_ok
        ∷ begun esp_ok
        ∷ configured esp_ok
        ∷ claimed true
        ∷ [];
  },
)

update-refused : update platform kconfig 9 (some choosy) (device (more ∷ [])) ≡ some refused
unfolding claim release check_incoming_image prepare settle ota_config session run_update notify
    announce claimed_update update claim_update_slot release_update_slot abort_requested external
    interfere dispatch_event build_http_config is_plain_http
update-refused = refl

update-Heeded_example : Heeded refused
update-Heeded_example =
    update-Heeded platform kconfig choosy 9 url (device (more ∷ [])) refused refl refl
      update-refused
