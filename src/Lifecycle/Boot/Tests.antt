-- ===== src/Lifecycle/Boot/Tests.antt =====
-- An update of a device with two partitions that the power fails.
use esp32s3_ota_api.Prelude.{◌≡◌, ◌≤◌, ◌⊎◌, refl, inl, true}
use esp32s3_ota_api.Prelude.CString.{codes}
use esp32s3_ota_api.Examples.{kconfig}
use esp32s3_ota_api.Update.Machine.Laws.{guarded}
use esp32s3_ota_api.Update.Machine.Objections.{attempts}
use esp32s3_ota_api.Update.Recovery.Disk.{platform, config, half, plugged, disk-cut}
use esp32s3_ota_api.Update.Boot.Tests.{disk-IsSelector}
use esp32s3_ota_api.Lifecycle.Power.{IsTorn}
use esp32s3_ota_api.Lifecycle.Boot.{update-IsEither}

staged-IsTorn : IsTorn half (λ w. w.staged)
staged-IsTorn = record { either = λ w v. inl refl }

update-IsEither_example :
    (disk-cut.0.1.world.0.staged ≡ plugged.world.0.staged)
    ⊎ ((disk-cut.0.1.world.0.staged ≡ true)
        × (1 ≤ attempts disk-cut.0.1.trace)
        × (guarded disk-cut.0.1.trace ≡ true))
update-IsEither_example =
    update-IsEither platform kconfig half config (λ w. w.staged) true disk-IsSelector staged-IsTorn
      5 (codes "https://h/f") plugged disk-cut.0 refl refl disk-cut.1
