-- ===== src/Trial/Race/Tests.antt =====
-- A confirmation and the callback on a board whose timer is up.
use esp32s3_ota_api.Prelude.{◌≡◌, refl, true, false, not, none, some, [], ◌∷◌, arith, ◌==◌}
use esp32s3_ota_api.Err.{esp_ok}
use esp32s3_ota_api.Examples.{kconfig}
use esp32s3_ota_api.Trial.{Board, pending_verify, rebooted, is_on_trial}
use esp32s3_ota_api.Trial.Example.{Chip, chip, window, documented, elapse}
use esp32s3_ota_api.Trial.Laws.{IsDocumented}
use esp32s3_ota_api.Trial.Race.{
  marked, rolled_back, Service, confirms, times_out, passes, begun, is_gone, race,
}
use esp32s3_ota_api.Trial.Race.Invariant.{IsTimely, has_confirmed}
use esp32s3_ota_api.Trial.Race.Laws.{is_settled, race-Settled}

-- The device has firmware to go back to.
abbrev board : Board
board = record chip { ota_mark_app_invalid_rollback_and_reboot = λ w. rebooted w }

abbrev service : Service board
service = record {
  expired = λ t w. elim w.window [ none ↦ false | some k ↦ k == 0 ];
  dispatch = λ t w. record w { window = none };
  elapse = λ d w. elapse d w;
}

timely : IsTimely board service window
unfolding is_on_trial
timely = record {
  expired_runs = λ t w h. ground arith;
  dispatch_on_trial = λ t w. refl;
  elapse_idle = λ t d w e. rw e refl;
  elapse_on_trial = λ d w. ground arith;
  refused_on_trial = λ w w' err e. cc;
}

board_documented : IsDocumented board window
unfolding is_on_trial
board_documented = record {
  start_once = documented.start_once;
  stops = documented.stops;
  create_idle = documented.create_idle;
  create_on_trial = documented.create_on_trial;
  start_on_trial = documented.start_on_trial;
  stop_on_trial = documented.stop_on_trial;
  mark_valid_timers = documented.mark_valid_timers;
  mark_valid = documented.mark_valid;
}

abbrev booted : Chip
booted = record { image = pending_verify; window = some 60; write = esp_ok }

-- The callback is dispatched and finds the image on trial; then the image is confirmed, and yet the
-- callback goes on to roll it back.
late_confirm :
    let t =
      race board service
        (passes 60 ∷ times_out ∷ times_out ∷ confirms ∷ confirms ∷ confirms ∷ times_out ∷ [])
        (begun board service (some 5) booted) in
    (t.confirm ≡ marked esp_ok) × (t.callback ≡ rolled_back)
unfolding race is_on_trial
late_confirm = (refl, refl)

race-Settled_example :
    let t =
      race board service
        (confirms ∷ times_out ∷ passes 60 ∷ times_out ∷ [])
        (race board service (confirms ∷ confirms ∷ []) (begun board service (some 5) booted)) in
    (is_settled t.confirm t.callback ≡ true)
    × (is_gone t.callback ≡ false)
    × (is_on_trial board t.world ≡ not (has_confirmed t.confirm))
unfolding race is_on_trial
race-Settled_example =
    race-Settled board kconfig window board_documented service timely (some 5) booted
      (confirms ∷ confirms ∷ []) (confirms ∷ times_out ∷ passes 60 ∷ times_out ∷ []) refl
