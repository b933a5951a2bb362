-- ===== src/Rollback/Startup/Tests.antt =====
-- An image on trial that finds its network, and fetches an update in one chunk.
use esp32s3_ota_api.Prelude.{ℕ, ◌≡◌, refl, none, [], true, false}
use esp32s3_ota_api.Prelude.Int.{pos}
use esp32s3_ota_api.Prelude.CString.{codes}
use esp32s3_ota_api.Err.{esp_ok}
use esp32s3_ota_api.Slot.{initial}
use esp32s3_ota_api.System.{Platform}
use esp32s3_ota_api.Examples.{kconfig, desc, bundle}
use esp32s3_ota_api.Update.Termination.{IsFinite}
use esp32s3_ota_api.Trial.{is_on_trial}
use esp32s3_ota_api.Trial.Example.{Chip, chip, window, documented, booted}
use esp32s3_ota_api.Startup.{
  Boot, done, init_nvs, init_netif, checked, error_check, call, call_own, pure, ◌>>=◌,
}
use esp32s3_ota_api.Startup.Example.{idf, power_on}
use esp32s3_ota_api.Rollback.Startup.{Flash, Options, Own, ota_config, connect_network, app_main}
use esp32s3_ota_api.Rollback.Startup.Network.{IsApart}
use esp32s3_ota_api.Rollback.Startup.Laws.{Why, Ends, app_main-Ends}

abbrev quiet : {A : Type 0} → A → Chip → A × Chip
quiet a w = (a, w)

abbrev platform : Platform
platform = record {
  World = Chip;
  Handle = ℕ;
  net = record { esp_crt_bundle_attach = bundle; impl_name = λ n. codes "en1" };
  meanwhile = λ w. [];
  https_ota_begin = λ c w. quiet (esp_ok, 7) w;
  https_ota_get_img_desc = λ h w. quiet (esp_ok, desc) w;
  https_ota_get_image_size = λ h w. pos 3000;
  https_ota_perform = λ h w. quiet esp_ok w;
  https_ota_is_complete_data_received = λ h w. true;
  https_ota_get_image_len_read = λ h w. pos 3000;
  https_ota_abort = λ h w. quiet esp_ok w;
  https_ota_finish = λ h w. quiet esp_ok w;
  timer_get_time = λ w. pos 0;
}

abbrev flash : Flash Chip
flash = record {
  Partition = ℕ;
  Timer = ℕ;
  ota_get_running_partition = chip.ota_get_running_partition;
  ota_get_state_partition = chip.ota_get_state_partition;
  timer_create = chip.timer_create;
  timer_start_once = chip.timer_start_once;
  timer_stop = chip.timer_stop;
  ota_mark_app_valid_cancel_rollback = chip.ota_mark_app_valid_cancel_rollback;
  ota_mark_app_invalid_rollback_and_reboot = chip.ota_mark_app_invalid_rollback_and_reboot;
}

abbrev options : Options
options = record {
  upgrade_url = codes "https://h/f";
  skip_common_name_check = false;
  connect_wifi = true;
}

apart : IsApart platform flash idf
apart = record {
  by_netif_init = λ w. refl;
  by_event_loop = λ w. refl;
  by_connect = λ w. refl;
  by_wifi = λ w. refl;
}

finite : IsFinite platform (ota_config platform flash idf kconfig options) (λ w. 0)
finite = record { perform_falls = λ handle w h. cc; callback_keeps = λ event_cb e event w. cc }

abbrev on_trial : Boot (Own platform flash idf kconfig options) Chip
on_trial =
    power_on
      (record { timer = none; shared = record { slot = initial; other = false }; trace = [] })
      booted.world

app_main-Ends_example :
    Ends platform flash idf kconfig options
      (Why platform flash idf kconfig options
        (connect_network platform flash idf kconfig options on_trial))
      (λ fuel. app_main platform flash idf kconfig options fuel on_trial)
app_main-Ends_example =
    app_main-Ends platform flash idf kconfig options window documented apart (λ w. 0) finite
      on_trial refl

sees_trial : (connect_network platform flash idf kconfig options on_trial).0 ≡ done (true, esp_ok)
unfolding connect_network init_nvs init_netif checked error_check call call_own pure ◌>>=◌
    is_on_trial
sees_trial = refl
