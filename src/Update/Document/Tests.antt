-- ===== src/Update/Document/Tests.antt =====
-- A run of `ota_api_update` with an application that lists what its callback is called with.
use esp32s3_ota_api.Prelude.{
  ℕ, zero, suc, ◌*◌, ◌+◌, ◌≡◌, refl, true, false, some, List, [], ◌∷◌, arith,
}
use mathlib.Core.Option.{some-injective}
use mathlib.Core.Path.{subst}
use esp32s3_ota_api.Prelude.Int.{pos}
use esp32s3_ota_api.Err.{Err, esp_ok, https_ota_in_progress}
use esp32s3_ota_api.Slot.{initial, claim_update_slot, release_update_slot, abort_requested}
use esp32s3_ota_api.Config.{Config, Event, EventCb, config_default}
use esp32s3_ota_api.Http.{is_plain_http, build_http_config}
use esp32s3_ota_api.System.{Platform, Sys, external}
use esp32s3_ota_api.System.Sharing.{interfere}
use esp32s3_ota_api.Report.{progress_of, dispatch_event, report_progress}
use esp32s3_ota_api.Examples.{kconfig, desc, bundle, url}
use esp32s3_ota_api.Update.{
  turn_of, claim, release, poll, check_incoming_image, attend, round, proceed, rounds, verify,
  conclude, download_image, prepare, settle, ota_config, session, run_update, notify, announce,
  claimed_update, update,
}
use esp32s3_ota_api.Update.Machine.Reasons.{vetted}
use esp32s3_ota_api.Update.Listener.{IsListener, dispatches}
use esp32s3_ota_api.Update.Causes.{update-vetted}
use esp32s3_ota_api.Update.Document.{IsRun, update-IsRun}

-- The chunks that the server has left, those that came, and the application's list.
record Journal : Type 0 where
  left : ℕ
  fetched : ℕ
  heard : List (Event × Err)

abbrev fetch : Journal → Err × Journal
fetch w = elim w.left [
  | zero ↦ (esp_ok, w)
  | suc n ↦ (https_ota_in_progress, record w { left = n; fetched = w.fetched + 1 })
]

abbrev platform : Platform
platform = record {
  World = Journal;
  Handle = ℕ;
  net = record { esp_crt_bundle_attach = bundle; impl_name = λ n. [] };
  meanwhile = λ w. [];
  https_ota_begin = λ c w. ((esp_ok, 7), w);
  https_ota_get_img_desc = λ h w. ((esp_ok, desc), w);
  https_ota_get_image_size = λ h w. pos 4000;
  https_ota_perform = λ h w. fetch w;
  https_ota_is_complete_data_received = λ h w. true;
  https_ota_get_image_len_read = λ h w. pos (w.fetched * 1000);
  https_ota_abort = λ h w. (esp_ok, w);
  https_ota_finish = λ h w. (esp_ok, w);
  timer_get_time = λ w. pos 0;
}

abbrev notes : EventCb Journal
notes event user_ctx w = (esp_ok, record w { heard = (event, esp_ok) ∷ w.heard })

abbrev config : Config Journal
config = record config_default { url = some url; event_cb = some notes }

abbrev at_start : Sys Journal
at_start = record {
  shared = record { slot = initial; other = false };
  world = record { left = 1; fetched = 0; heard = [] };
  trace = [];
}

journal-IsListener : IsListener platform config (λ w. w.heard)
journal-IsListener = record {
  by_callback = λ cb given event w.
      subst (λ (f : EventCb Journal). (f event 0 w).1.heard ≡ (event, (f event 0 w).0) ∷ w.heard)
        (some-injective _ _ given) refl;
  by_begin = λ c w. refl;
  by_img_desc = λ h w. refl;
  by_perform = λ h w. ground arith;
  by_abort = λ h w. refl;
  by_finish = λ h w. refl;
}

journal-updates :
    (r : Err × Sys Journal) × (update platform kconfig 9 (some config) at_start ≡ some r)
    × (r.0 ≡ esp_ok)
unfolding turn_of claim release poll check_incoming_image attend round proceed rounds verify
    conclude download_image prepare settle ota_config session run_update notify announce
    claimed_update update claim_update_slot release_update_slot abort_requested external interfere
    progress_of dispatch_event report_progress build_http_config is_plain_http
journal-updates = (_, refl, refl)

update-vetted_example :
    (vetted journal-updates.0.1.trace ≡ true)
    × (journal-updates.0.1.world.heard ≡ dispatches journal-updates.0.1.trace)
update-vetted_example =
    update-vetted platform kconfig config (λ w. w.heard) notes 9 url at_start journal-updates.0
      journal-IsListener refl refl refl refl journal-updates.1

update-IsRun_example : IsRun platform kconfig (λ w. w.heard) (some config) journal-updates.0
update-IsRun_example =
    update-IsRun platform kconfig (λ w. w.heard) 9 (some config) at_start journal-updates.0
      journal-IsListener refl refl journal-updates.1
