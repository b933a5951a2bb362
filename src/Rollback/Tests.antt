-- ===== src/Rollback/Tests.antt =====
-- The self-test on a board.
use esp32s3_ota_api.Prelude.{refl}
use esp32s3_ota_api.Err.{Err, esp_ok}
use esp32s3_ota_api.Examples.{kconfig}
use esp32s3_ota_api.Trial.Example.{Chip, chip, window, documented, booted}
use esp32s3_ota_api.Rollback.{app_main}
use esp32s3_ota_api.Rollback.SelfTest.{IsVouched, app_main-IsVouched}

abbrev connects : Chip → Err × Chip
connects w = (esp_ok, w)

app_main-IsVouched_run :
    IsVouched chip kconfig window documented esp_ok (app_main chip connects booted)
app_main-IsVouched_run = app_main-IsVouched chip kconfig window documented connects booted refl
