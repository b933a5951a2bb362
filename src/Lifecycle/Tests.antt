-- ===== src/Lifecycle/Tests.antt =====
-- The life of a device with two partitions.
use esp32s3_ota_api.Prelude.{ℕ, ◌≡◌, refl, true, false, inl, inr, none, some, arith, if◌then◌else◌}
use esp32s3_ota_api.Err.{esp_ok, esp_fail}
use esp32s3_ota_api.Slot.{initial}
use esp32s3_ota_api.System.Sharing.{Shared}
use esp32s3_ota_api.Update.OnTrial.{IsWriter, IsTame}
use esp32s3_ota_api.Update.Recovery.Disk.{
  Disk, platform, config, sold, tried, half, disk-updates, disk-refused, disk-cut,
}
use esp32s3_ota_api.Trial.{
  pending_verify, valid, is_pending_verify, rebooted, refused, is_on_trial, trial_begin,
}
use esp32s3_ota_api.Trial.Recovery.{IsBootable}
use esp32s3_ota_api.Rollback.Startup.{Flash, board}
use esp32s3_ota_api.Examples.{kconfig}
use esp32s3_ota_api.Lifecycle.{
  Bootloader, Device, Reach, powered_on, later, updates, begins, loses_power, resets,
}
use esp32s3_ota_api.Lifecycle.Power.{IsTorn}
use esp32s3_ota_api.Lifecycle.Recovery.{Reach-Reverts}

abbrev reverted : Disk → Disk
reverted w = record w { running = valid; other_valid = false; staged = false }

abbrev flash : Flash Disk
flash = record {
  Partition = ℕ;
  Timer = ℕ;
  ota_get_running_partition = λ w. 0;
  ota_get_state_partition = λ p w. (esp_ok, w.running);
  timer_create = λ w. ((esp_ok, 5), w);
  timer_start_once = λ t d w. (esp_ok, w);
  timer_stop = λ t w. (esp_ok, w);
  ota_mark_app_valid_cancel_rollback = λ w. (esp_ok, record w { running = valid });
  ota_mark_app_invalid_rollback_and_reboot =
      λ w. if w.other_valid then rebooted (reverted w) else refused esp_fail w;
}

abbrev loader : Bootloader Disk
loader = record {
  ota_check_rollback_is_possible = λ w. w.other_valid;
  reset = λ w.
      if is_pending_verify w.running
      then reverted w
      else if w.staged
      then record w { running = pending_verify; other_valid = true; staged = false }
      else w;
}

disk-IsWriter : IsWriter platform (is_on_trial (board flash)) loader.ota_check_rollback_is_possible
unfolding is_on_trial
disk-IsWriter = record {
  begin_trial = λ c w. ground arith;
  img_desc_trial = λ h w. refl;
  perform_trial = λ h w. ground arith;
  abort_trial = λ h w. refl;
  finish_trial = λ h w. refl;
  begin_fallback = λ c w on. ground arith;
  img_desc_fallback = λ h w on. refl;
  perform_refused = λ h w on. ground (arith, on);
  abort_fallback = λ h w on. refl;
}

disk-IsBootable :
    IsBootable (board flash) loader.ota_check_rollback_is_possible (λ d w. w) loader.reset
unfolding is_on_trial
disk-IsBootable = record {
  creates = λ w. (refl, refl);
  starts = λ t d w. (refl, refl);
  stops = λ t w. (refl, refl);
  elapses = λ d w. (refl, refl);
  marks = λ w. refl;
  rolls_back = λ w w' e. ground arith;
  refuses = λ w w' err e. ground arith;
  reverts = λ w on possible. ground arith;
  boots_new = λ w off on. ground arith;
}

trial-IsTorn : IsTorn half (is_on_trial (board flash))
unfolding is_on_trial
trial-IsTorn = record { either = λ w v. inl refl }

fallback-IsTorn : IsTorn half loader.ota_check_rollback_is_possible
fallback-IsTorn = record { either = λ w v. inr refl }

silent-IsTame :
    IsTame platform config (is_on_trial (board flash)) loader.ota_check_rollback_is_possible
silent-IsTame = record { callback_same = λ cb given event w. cc }

abbrev idle : Shared
idle = record { slot = initial; other = false }

abbrev Lives : Device platform flash kconfig loader (λ d w. w) half → Type 0
Lives s = Reach platform flash kconfig loader (λ d w. w) half sold s

-- An update, and the reset into the new image.
on_trial_first : Lives (record { timer = none; shared = idle; world = tried })
on_trial_first =
    let (r, run, world, shared) = disk-updates in
    let updated : Lives (record { timer = none; shared = r.1.shared; world = r.1.world }) =
      later powered_on (updates 5 config r silent-IsTame run) in
    let staged : Lives (record {
      timer = none;
      shared = idle;
      world = record sold { other_valid = false; staged = true; chunks = 0 };
    }) =
      rw (shared, world) at updated in
    later staged resets

-- A countdown, and an update that comes too early.
on_trial_again : Lives (record { timer = some 5; shared = idle; world = tried })
unfolding trial_begin is_on_trial
on_trial_again =
    let (r, run, world, shared) = disk-refused in
    let counting : Lives (record { timer = some 5; shared = idle; world = tried }) =
      later on_trial_first (begins 60) in
    let updated : Lives (record { timer = some 5; shared = r.1.shared; world = r.1.world }) =
      later counting (updates 5 config r silent-IsTame run) in
    rw (shared, world) at updated

Reach-Reverts_example :
    (loader.ota_check_rollback_is_possible tried ≡ true)
    × (is_on_trial (board flash) (loader.reset tried) ≡ false)
unfolding is_on_trial
Reach-Reverts_example =
    Reach-Reverts platform flash kconfig loader (λ d w. w) half disk-IsWriter disk-IsBootable
      trial-IsTorn fallback-IsTorn (λ on. cc) on_trial_again refl

-- The power fails during an update: the device comes up with the image that it ran.
after_failure :
    Lives (record { timer = none; shared = idle; world = record sold { other_valid = false } })
after_failure =
    let (r, run, world) = disk-cut in
    let lost : Lives (record { timer = none; shared = idle; world = loader.reset r.1.world.0 }) =
      later powered_on (loses_power 3 5 config r silent-IsTame run) in
    rw world at lost
