-- ===== src/Update/Boot/Tests.antt =====
-- An update of a device with two partitions: the new one is to be booted next.
use esp32s3_ota_api.Prelude.{◌≡◌, arith, refl, true, if◌then◌else◌}
use esp32s3_ota_api.Prelude.CString.{codes}
use esp32s3_ota_api.Err.{is_ok}
use esp32s3_ota_api.Examples.{kconfig}
use esp32s3_ota_api.Update.Recovery.Disk.{platform, config, sold, at_start, disk-updates}
use esp32s3_ota_api.Update.Boot.{IsSelector, update-boots}

pub disk-IsSelector : IsSelector platform config (λ w. w.staged) true
disk-IsSelector = record {
  by_begin = λ c w. ground arith;
  by_img_desc = λ h w. refl;
  by_perform = λ h w. ground arith;
  by_abort = λ h w. refl;
  by_finish = λ h w. refl;
  by_callback = λ cb given event w. cc;
}

update-boots_example :
    disk-updates.0.1.world.staged
    ≡ (if is_ok disk-updates.0.0 then true else (at_start sold).world.staged)
update-boots_example =
    update-boots platform kconfig config (λ w. w.staged) true disk-IsSelector 5
      (codes "https://h/f") (at_start sold) disk-updates.0 refl refl disk-updates.1
