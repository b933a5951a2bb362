-- ===== src/Update/Recovery/Disk.antt =====
-- Runs of `ota_api_update` on a device with two partitions, which does what is documented.
use esp32s3_ota_api.Prelude.{ℕ, zero, suc, ◌≡◌, refl, Bool, true, false, some, [], if◌then◌else◌}
use esp32s3_ota_api.Prelude.Int.{pos}
use esp32s3_ota_api.Prelude.CString.{codes}
use esp32s3_ota_api.Err.{Err, esp_ok, https_ota_in_progress, other}
use esp32s3_ota_api.Slot.{initial, claim_update_slot, release_update_slot, abort_requested}
use esp32s3_ota_api.Config.{Config, config_default}
use esp32s3_ota_api.Http.{is_plain_http, build_http_config}
use esp32s3_ota_api.System.{Platform, Sys, external}
use esp32s3_ota_api.System.Sharing.{interfere}
use esp32s3_ota_api.Report.{progress_of, dispatch_event, report_progress}
use esp32s3_ota_api.Trial.{ImgState, pending_verify, valid, is_pending_verify}
use esp32s3_ota_api.Examples.{kconfig, desc, bundle}
use esp32s3_ota_api.Lifecycle.Power.{cut, begins, on_handle, asked_of, powered, powered_config}
use esp32s3_ota_api.Update.{
  turn_of, claim, release, poll, check_incoming_image, attend, round, proceed, rounds, verify,
  conclude, download_image, prepare, settle, ota_config, session, run_update, notify, announce,
  claimed_update, update,
}

-- The image that runs, whether there is a valid one in the other partition, whether the other one is
-- to be booted next, and the chunks that the server has left.
pub record Disk : Type 0 where
  pub running : ImgState
  pub other_valid : Bool
  pub staged : Bool
  pub chunks : ℕ

-- The other partition is erased with the first chunk, unless the running image is on trial.
abbrev pub fetch : Disk → Err × Disk
fetch w = if is_pending_verify w.running then (other 5379, w) else elim w.chunks [
  | zero ↦ (esp_ok, record w { other_valid = false })
  | suc n ↦ (https_ota_in_progress, record w { other_valid = false; chunks = n })
]

abbrev pub platform : Platform
platform = record {
  World = Disk;
  Handle = ℕ;
  net = record { esp_crt_bundle_attach = bundle; impl_name = λ n. codes "en1" };
  meanwhile = λ w. [];
  https_ota_begin = λ c w. ((esp_ok, 1), w);
  https_ota_get_img_desc = λ h w. ((esp_ok, desc), w);
  https_ota_get_image_size = λ h w. pos 2000;
  https_ota_perform = λ h w. fetch w;
  https_ota_is_complete_data_received = λ h w. true;
  https_ota_get_image_len_read = λ h w. pos 2000;
  https_ota_abort = λ h w. (esp_ok, w);
  https_ota_finish = λ h w. (esp_ok, record w { staged = true });
  timer_get_time = λ w. pos 0;
}

abbrev pub config : Config Disk
config = record config_default { url = some (codes "https://h/f") }

abbrev pub sold : Disk
sold = record { running = valid; other_valid = true; staged = false; chunks = 1 }

-- The new image has been booted for the first time.
abbrev pub tried : Disk
tried = record { running = pending_verify; other_valid = true; staged = false; chunks = 0 }

module _ (w : Disk) where
  abbrev pub at_start : Sys Disk
  at_start = record { shared = record { slot = initial; other = false }; world = w; trace = [] }

-- The run stages the new image, and the old one is not there any more beside the running one.
pub disk-updates :
    (r : Err × Sys Disk) × (update platform kconfig 5 (some config) (at_start sold) ≡ some r)
    × (r.1.world ≡ record sold { other_valid = false; staged = true; chunks = 0 })
    × (r.1.shared ≡ record { slot = initial; other = false })
unfolding turn_of claim release poll check_incoming_image attend round proceed rounds verify
    conclude download_image prepare settle ota_config session run_update notify announce
    claimed_update update claim_update_slot release_update_slot abort_requested external interfere
    progress_of dispatch_event report_progress build_http_config is_plain_http
disk-updates = (_, refl, refl, refl)

-- Run on trial it changes nothing.
pub disk-refused :
    (r : Err × Sys Disk) × (update platform kconfig 5 (some config) (at_start tried) ≡ some r)
    × (r.1.world ≡ tried)
    × (r.1.shared ≡ record { slot = initial; other = false })
unfolding turn_of claim release poll check_incoming_image attend round proceed rounds verify
    conclude download_image prepare settle ota_config session run_update notify announce
    claimed_update update claim_update_slot release_update_slot abort_requested external interfere
    progress_of dispatch_event report_progress build_http_config is_plain_http
disk-refused = (_, refl, refl, refl)

-- A call that the power fails in makes the other partition invalid and no more.
abbrev pub half : Disk → Disk → Disk
half w v = record w { other_valid = v.other_valid }

-- The power lasts for three calls.
abbrev pub plugged : Sys (Disk × ℕ)
plugged = record {
  shared = record { slot = initial; other = false };
  world = (sold, 3);
  trace = [];
}

-- If the power fails in the third call, the other partition is invalid already and the chunk is
-- lost.
pub disk-cut :
    (r : Err × Sys (Disk × ℕ)) × (update
        (powered platform half)
        kconfig
        5
        (some (powered_config platform half config))
        plugged
      ≡ some r)
    × (r.1.world.0 ≡ record sold { other_valid = false })
unfolding turn_of claim release poll check_incoming_image attend round proceed rounds verify
    conclude download_image prepare settle ota_config session run_update notify announce
    claimed_update update claim_update_slot release_update_slot abort_requested external interfere
    progress_of dispatch_event report_progress build_http_config is_plain_http cut begins on_handle
    asked_of
disk-cut = (_, refl, refl)
