-- ===== src/Trial/Example.antt =====
-- A board that does what esp_timer and esp_ota_ops document.
use esp32s3_ota_api.Prelude.{
  ◌≡◌, ◌-◌, ap, sym, ℕ, refl, Option, none, some, arith, if◌then◌else◌, is_some,
}
use esp32s3_ota_api.Err.{Err, esp_ok, esp_fail, invalid_state, is_ok}
use esp32s3_ota_api.Trial.{ImgState, pending_verify, valid, refused, Board, State, is_on_trial}
use esp32s3_ota_api.Trial.Deadline.{IsClock}
use esp32s3_ota_api.Trial.Laws.{IsDocumented}

-- The state of the running image, the window of the one timer, and what a write to the partition
-- table leads to.
pub record Chip : Type 0 where
  pub image : ImgState
  pub window : Option ℕ
  pub write : Err

abbrev start_once : ℕ → Chip → Err × Chip
start_once d w =
    if is_some w.window then (invalid_state, w) else (esp_ok, record w { window = some d })

abbrev mark_valid : Chip → Err × Chip
mark_valid w = (w.write, if is_ok w.write then record w { image = valid } else w)

abbrev pub chip : Board
chip = record {
  World = Chip;
  Partition = ℕ;
  Timer = ℕ;
  ota_get_running_partition = λ w. 0;
  ota_get_state_partition = λ p w. (esp_ok, w.image);
  timer_create = λ w. ((esp_ok, 5), record w { window = none });
  timer_start_once = λ t d w. start_once d w;
  timer_stop = λ t w. (esp_ok, record w { window = none });
  ota_mark_app_valid_cancel_rollback = λ w. mark_valid w;
  ota_mark_app_invalid_rollback_and_reboot = λ w. refused esp_fail w;
}

abbrev pub window : ℕ → Chip → Option ℕ
window t w = w.window

pub documented : IsDocumented chip window
unfolding is_on_trial
documented = record {
  start_once = λ t d w. ground arith;
  stops = λ t w. refl;
  create_idle = λ w. refl;
  create_on_trial = λ w. refl;
  start_on_trial = λ t d w. ground arith;
  stop_on_trial = λ t w. refl;
  mark_valid_timers = λ t w. ground arith;
  mark_valid = λ w. ground arith;
}

-- A fresh boot on trial, and the same with a countdown of 60 seconds under way and a partition
-- table that cannot be written.
abbrev pub booted : State chip
booted = record {
  timer = none;
  world = record { image = pending_verify; window = none; write = esp_ok };
}

abbrev pub counting : State chip
counting = record {
  timer = some 5;
  world = record { image = pending_verify; window = some 60000000; write = esp_fail };
}

-- A running timer gets nearer to its end.
abbrev pub elapse : ℕ → Chip → Chip
elapse d w = elim w.window [ none ↦ w | some k ↦ record w { window = some (k - d) } ]

pub clock : IsClock chip window elapse
unfolding is_on_trial
clock = record {
  elapse_window = λ t d k w e. rw e (ground arith);
  elapse_on_trial = λ d w. ground arith;
  refused_window = λ t w w' err e. let same : w ≡ w' = cc in ap (window t) (sym same);
  refused_on_trial =
      λ w w' err e. let same : w ≡ w' = cc in ap (λ v. is_on_trial chip v) (sym same);
}
