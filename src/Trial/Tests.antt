-- ===== src/Trial/Tests.antt =====
-- Trial runs on the board of the example.
use esp32s3_ota_api.Prelude.{List, [], ◌∷◌, ◌≡◌, refl, true, none, some, arith, is_some}
use esp32s3_ota_api.Err.{esp_ok, invalid_state}
use esp32s3_ota_api.Trial.{is_on_trial, trial_timeout, trial_begin, trial_confirm}
use esp32s3_ota_api.Trial.Deadline.{Deed, passes, begins, rejects, IsDue, run, run-IsDue}
use esp32s3_ota_api.Trial.Laws.{countdown, begin-countdown, begin-refused, confirm-countdown}
use esp32s3_ota_api.Trial.Result.{IsBeginResult, IsConfirmResult, trial-Results}
use esp32s3_ota_api.Examples.{kconfig}
use esp32s3_ota_api.Trial.Example.{chip, window, documented, elapse, clock, booted, counting}

begin-countdown_run :
    let s' = (trial_begin chip kconfig 60 booted).1 in
    (is_on_trial chip booted.world ≡ true)
    × (countdown chip kconfig window documented booted ≡ none)
    × (countdown chip kconfig window documented s' ≡ some 60000000)
    × (is_on_trial chip s'.world ≡ true)
unfolding trial_begin is_on_trial
begin-countdown_run = begin-countdown chip kconfig window documented 60 booted (omega arith) refl

begin-refused_run :
    ((trial_begin chip kconfig 10 counting).0 ≡ invalid_state)
    × (countdown chip kconfig window documented (trial_begin chip kconfig 10 counting).1
        ≡ some 60000000)
unfolding is_on_trial
begin-refused_run = begin-refused chip kconfig window documented 10 counting refl

-- The countdown is gone, and the image still on trial.
confirm-countdown_run :
    let (err, s') = trial_confirm chip counting in
    (countdown chip kconfig window documented s' ≡ none)
    × (is_on_trial chip s'.world ≡ true)
    × (is_some (trial_timeout chip s'.world) ≡ true)
unfolding trial_confirm is_on_trial
confirm-countdown_run = confirm-countdown chip kconfig window documented counting refl

-- A minute in which the application asks again, and for a rollback that is refused.
abbrev deeds : List Deed
deeds = passes 20_000_000 ∷ begins 10 ∷ rejects ∷ passes 30_000_000 ∷ []

begins_well : (trial_begin chip kconfig 60 booted).0 ≡ esp_ok
unfolding trial_begin is_on_trial
begins_well = refl

run-IsDue_example :
    IsDue chip kconfig window documented elapse clock 10_000_000
      (run chip kconfig window documented elapse clock deeds (trial_begin chip kconfig 60 booted).1)
run-IsDue_example =
    run-IsDue chip kconfig window documented elapse clock 60 booted deeds 10_000_000 (omega arith)
      begins_well (omega arith)

-- Asked again while the countdown is under way.
trial-Results_example :
    IsBeginResult chip kconfig window documented 10 counting (trial_begin chip kconfig 10 counting)
    × IsConfirmResult chip kconfig window documented counting (trial_confirm chip counting)
trial-Results_example = trial-Results chip kconfig window documented 10 counting (omega arith)
