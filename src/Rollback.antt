-- ===== src/Rollback.antt =====
-- examples/rollback/main/main.c: an image that tests itself before it is kept.
pub mod SelfTest
pub mod Verdict
pub mod Startup
mod Tests
use esp32s3_ota_api.Prelude.{Bool, true, false, Option, if◌then◌else◌}
use esp32s3_ota_api.Err.{Err, is_ok}
use esp32s3_ota_api.Trial
use esp32s3_ota_api.Trial.{
  Board, Rollback, rebooted, refused, is_on_trial, trial_confirm, trial_reject,
}

unfoldable pub run_diagnostic : Err → Bool
run_diagnostic connect_err = if is_ok connect_err then true else false

module _ (B : Board) where
  open B use {World}

  -- Where `app_main` is after the self-test: on its way to the update, halted by ESP_ERROR_CHECK,
  -- or gone with a reboot.
  pub data Boot : Type 0 where
    goes_on : esp32s3_ota_api.Trial.State B → Boot
    halted : esp32s3_ota_api.Trial.State B → Boot
    restarted : World → Boot

  -- `ESP_ERROR_CHECK`
  pub check : Err → esp32s3_ota_api.Trial.State B → Boot
  check err s = if is_ok err then goes_on s else halted s

  pub reject : Option B.Timer → Rollback World → Boot
  reject timer (rebooted w) = restarted w
  reject timer (refused err w) = goes_on (record { timer = timer; world = w })

  -- `if (pending_verify)`
  pub self_test : Bool → Err → esp32s3_ota_api.Trial.State B → Boot
  self_test false connect_err s = goes_on s
  self_test true connect_err s =
      if run_diagnostic connect_err
      then (let (err, s') = trial_confirm B s in check err s')
      else reject s.timer (trial_reject B s)

  pub check_connection : Err → Boot → Boot
  check_connection connect_err (goes_on s) = check connect_err s
  check_connection connect_err (halted s) = halted s
  check_connection connect_err (restarted w) = restarted w

  -- `app_main` from the read of the partition state to the check of the connection, without the
  -- start of the network; `example_connect` is a parameter.
  unfoldable pub app_main : (World → Err × World) → esp32s3_ota_api.Trial.State B → Boot
  unfolding check reject self_test check_connection
  app_main example_connect s =
      let pending_verify = is_on_trial B s.world in
      let (connect_err, w) = example_connect s.world in
      check_connection connect_err
        (self_test pending_verify connect_err (record { timer = s.timer; world = w }))
