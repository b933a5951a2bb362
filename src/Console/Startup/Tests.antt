-- ===== src/Console/Startup/Tests.antt =====
-- The start of the advanced example on the board of the trial run.
use esp32s3_ota_api.Prelude.{◌≡◌, ◌<◌, ◌^◌, refl, true, none, [], ◌∷◌, arith}
use esp32s3_ota_api.Err.{no_mem}
use esp32s3_ota_api.Examples.{kconfig}
use esp32s3_ota_api.Trial.{Board, is_on_trial, trial_begin}
use esp32s3_ota_api.Trial.Deadline.{passes, rejects}
use esp32s3_ota_api.Trial.Example.{chip, booted, window, documented, elapse, clock}
use esp32s3_ota_api.Startup.{
  done, init_nvs, init_netif, checked, spare_no_power, silently, register_all, error_check, call,
  ◌>>=◌,
}
use esp32s3_ota_api.Startup.Order.{needs}
use esp32s3_ota_api.Startup.Rules.{Follows}
use esp32s3_ota_api.Startup.Example.{idf, power_on}
use esp32s3_ota_api.Console.Startup.{banner, ready, app_main}
use esp32s3_ota_api.Console.Startup.Window.{AtReturn, Promises, app_main-Promises}
use esp32s3_ota_api.Console.Startup.Laws.{console, Up, app_main-trial_last}

small : kconfig.trial_timeout_s < 2 ^ 32
small = omega arith

shows_banner :
    (app_main chip idf kconfig true (power_on none booted.world)).0
    ≡ done (banner kconfig.trial_timeout_s)
unfolding app_main init_nvs init_netif checked spare_no_power silently register_all error_check call
    ◌>>=◌ trial_begin is_on_trial
shows_banner = refl

app_main-trial_last_example :
    Follows (needs console) Up (app_main chip idf kconfig true (power_on none booted.world))
app_main-trial_last_example =
    app_main-trial_last chip idf kconfig true (power_on none booted.world) refl

-- A device that cannot create the timer: the image is on trial without a countdown, and the
-- operator is shown the line for an image that is not on trial.
abbrev no_timer : Board
no_timer = record chip { timer_create = λ w. ((no_mem, 5), w) }

trial_unannounced :
    let (r, b) = app_main no_timer idf kconfig true (power_on none booted.world) in
    (r ≡ done ready) × (is_on_trial no_timer b.world ≡ true) × (b.own ≡ none)
unfolding app_main init_nvs init_netif checked spare_no_power silently register_all error_check call
    ◌>>=◌ trial_begin is_on_trial
trial_unannounced = (refl, refl, refl)

app_main-Promises_example :
    AtReturn
      (Promises chip idf kconfig window documented elapse clock small
        (passes 1000000 ∷ rejects ∷ [])
        299000000)
      (app_main chip idf kconfig true (power_on none booted.world))
app_main-Promises_example =
    app_main-Promises chip idf kconfig window documented elapse clock small
      (passes 1000000 ∷ rejects ∷ []) 299000000 (omega arith) true (power_on none booted.world)
