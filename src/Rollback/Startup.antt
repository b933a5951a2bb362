-- ===== src/Rollback/Startup.antt =====
-- examples/rollback/main/main.c: the whole of `app_main`, around the self-test.
pub mod Network
pub mod Laws
mod Tests
use esp32s3_ota_api.Prelude.{ℕ, Bool, true, false, Option, none, some, List, if◌then◌else◌}
use esp32s3_ota_api.Prelude.CString.{CString}
use esp32s3_ota_api.Err.{Err, is_ok}
use esp32s3_ota_api.Config.{Kconfig, Config, config_default}
use esp32s3_ota_api.System.{Platform, Sys, Mark}
use esp32s3_ota_api.System.Sharing.{Shared}
use esp32s3_ota_api.Update.{update}
use esp32s3_ota_api.Trial
use esp32s3_ota_api.Trial.{Board, ImgState, is_on_trial}
use esp32s3_ota_api.Startup.{
  Result, done, connect, Idf, Boot, Program, pure, ◌>>=◌, ◌>>◌, call, init_nvs, init_netif,
}
use esp32s3_ota_api.Rollback
use esp32s3_ota_api.Rollback.{goes_on, restarted, self_test, check_connection}

-- The partition table and the timers, over the world of esp_https_ota.
pub record Flash (W : Type 0) : Type 1 where
  pub Partition : Type 0
  pub Timer : Type 0
  pub ota_get_running_partition : W → Partition
  pub ota_get_state_partition : Partition → W → Err × ImgState
  pub timer_create : W → (Err × Timer) × W
  pub timer_start_once : Timer → ℕ → W → Err × W
  pub timer_stop : Timer → W → Err × W
  pub ota_mark_app_valid_cancel_rollback : W → Err × W
  pub ota_mark_app_invalid_rollback_and_reboot : W → Trial.Rollback W

abbrev pub board : {W : Type 0} → Flash W → Board
board {W = W} F = record {
  World = W;
  Partition = F.Partition;
  Timer = F.Timer;
  ota_get_running_partition = F.ota_get_running_partition;
  ota_get_state_partition = F.ota_get_state_partition;
  timer_create = F.timer_create;
  timer_start_once = F.timer_start_once;
  timer_stop = F.timer_stop;
  ota_mark_app_valid_cancel_rollback = F.ota_mark_app_valid_cancel_rollback;
  ota_mark_app_invalid_rollback_and_reboot = F.ota_mark_app_invalid_rollback_and_reboot;
}

-- How `app_main` ends: with `esp_restart` after the update, in the loop after an update that failed,
-- at a failed ESP_ERROR_CHECK, or with the reboot into the previous image.
pub data End : Type 0 where
  restarts stays halts rolls_back : End

-- CONFIG_EXAMPLE_FIRMWARE_UPGRADE_URL, CONFIG_EXAMPLE_SKIP_COMMON_NAME_CHECK and
-- CONFIG_EXAMPLE_CONNECT_WIFI
pub record Options : Type 0 where
  pub upgrade_url : CString
  pub skip_common_name_check : Bool
  pub connect_wifi : Bool

module _ (P : Platform) (F : Flash (P.World)) (I : Idf (P.World)) (K : Kconfig)
    (options : Options) where
  open P use {World}

  -- `s_trial_timer`, and what an update works on beside the world.
  abbrev pub Own : Type 0
  Own = record { timer : Option F.Timer; shared : Shared; trace : List Mark }

  abbrev pub ota_config : Config World
  ota_config = record config_default {
    url = some options.upgrade_url;
    skip_common_name_check = options.skip_common_name_check;
  }

  -- Up to the connection: whether the image is on trial, and the result of `example_connect`.
  pub connect_network : Program Own World (Bool × Err)
  connect_network = do
    init_nvs I
    pending_verify ← λ b. pure (is_on_trial (board F) b.world) b
    init_netif I
    connect_err ← call connect I.example_connect
    pure (pending_verify, connect_err)

  -- `err == ESP_OK` after the update.
  pub conclude : Err × Sys World → End × Sys World
  conclude (err, s) = (if is_ok err then restarts else stays, s)

  pub concluded : Option (Err × Sys World) → Option (End × Sys World)
  concluded none = none
  concluded (some r) = some (conclude r)

  abbrev pub to_sys : Own → World → Sys World
  to_sys own w = record { shared = own.shared; world = w; trace = own.trace }

  -- From the power save mode on.
  pub run_update : ℕ → Own → World → Option (End × Sys World)
  run_update fuel own w =
      let w' = if options.connect_wifi then I.wifi_set_ps_none w else w in
      concluded (update P K fuel (some ota_config) (to_sys own w'))

  -- After the self-test and the check of the connection.
  pub go_on : ℕ → Own → Rollback.Boot (board F) → Option (End × Sys World)
  go_on fuel own (goes_on s) = run_update fuel (record own { timer = s.timer }) s.world
  go_on fuel own (Rollback.halted s) = some (halts, to_sys own s.world)
  go_on fuel own (restarted w) = some (rolls_back, to_sys own w)

  pub after_connection : ℕ → Result (Bool × Err) × Boot Own World → Option (End × Sys World)
  after_connection fuel (done (pending_verify, connect_err), b) = go_on fuel b.own (
      check_connection (board F) connect_err (
        self_test (board F) pending_verify connect_err
          (record { timer = b.own.timer; world = b.world })))
  after_connection fuel (esp32s3_ota_api.Startup.halted, b) = some (halts, to_sys b.own b.world)

  -- `none` if the fuel of the update runs out.
  unfoldable pub app_main : ℕ → Boot Own World → Option (End × Sys World)
  unfolding connect_network after_connection go_on run_update concluded conclude
  app_main fuel b = after_connection fuel (connect_network b)
