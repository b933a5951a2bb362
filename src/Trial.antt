-- ===== src/Trial.antt =====
-- src/ota-api-trial.c: the trial run of a freshly booted image, and its countdown.
pub mod Laws
pub mod Deadline
pub mod Race
pub mod Result
pub mod Recovery
pub mod Example
mod Tests
use esp32s3_ota_api.Prelude.{
  ℕ, ◌*◌, ◌%◌, ◌^◌, Bool, true, false, not, Option, none, some, ◌==◌, if◌then◌else◌,
}
use esp32s3_ota_api.Err.{Err, esp_ok, invalid_state, is_ok}
use esp32s3_ota_api.Config.{Kconfig}

-- `esp_ota_img_states_t`
pub data ImgState : Type 0 where
  new pending_verify valid invalid aborted undefined : ImgState

abbrev pub is_pending_verify : ImgState → Bool
is_pending_verify pending_verify = true
is_pending_verify _ = false

-- `esp_ota_mark_app_invalid_rollback_and_reboot` returns only if it fails.
pub data Rollback (W : Type 0) : Type 0 where
  rebooted : W → Rollback W
  refused : Err → W → Rollback W

-- The partition table and the timers of ESP-IDF. The world holds both.
pub record Board : Type 1 where
  pub World : Type 0
  pub Partition : Type 0
  pub Timer : Type 0
  pub ota_get_running_partition : World → Partition
  pub ota_get_state_partition : Partition → World → Err × ImgState
  pub timer_create : World → (Err × Timer) × World
  pub timer_start_once : Timer → ℕ → World → Err × World  -- uint64_t
  pub timer_stop : Timer → World → Err × World
  pub ota_mark_app_valid_cancel_rollback : World → Err × World
  pub ota_mark_app_invalid_rollback_and_reboot : World → Rollback World

module _ (B : Board) where
  open B use {
    World, Timer, ota_get_running_partition, ota_get_state_partition, timer_create,
    timer_start_once, timer_stop, ota_mark_app_valid_cancel_rollback,
    ota_mark_app_invalid_rollback_and_reboot,
  }

  -- `s_trial_timer`, which is NULL until the first countdown, and the world.
  abbrev pub State : Type 0
  State = record { timer : Option Timer; world : World }

  unfoldable pub is_on_trial : World → Bool
  is_on_trial w =
      let (err, state) = ota_get_state_partition (ota_get_running_partition w) w in
      if is_ok err then is_pending_verify state else false

  -- The timer's callback: `none` is its plain return.
  unfoldable pub trial_timeout : World → Option (Rollback World)
  trial_timeout w =
      if is_on_trial w then some (ota_mark_app_invalid_rollback_and_reboot w) else none

  -- The end of `ota_api_trial_begin`, with a timer at hand.
  pub start : Timer → ℕ → World → Err × State
  start timer timeout_s w =
      let (err, w') = timer_start_once timer ((timeout_s * 1000000) % 2 ^ 64) w in
      (err, record { timer = some timer; world = w' })

  -- `if (!s_trial_timer)`: the first countdown of the boot creates the timer. A failed creation
  -- leaves the pointer NULL.
  pub with_timer : Option Timer → ℕ → World → Err × State
  with_timer (some timer) timeout_s w = start timer timeout_s w
  with_timer none timeout_s w =
      let ((err, timer), w') = timer_create w in
      if is_ok err then start timer timeout_s w' else (err, record { timer = none; world = w' })

  module _ (K : Kconfig) where
    unfoldable pub trial_begin : ℕ → State → Err × State
    unfolding with_timer start
    trial_begin timeout_s s =
        if is_on_trial s.world
        then with_timer s.timer (if timeout_s == 0 then K.trial_timeout_s else timeout_s) s.world
        else (invalid_state, s)

  -- `if (s_trial_timer) (void)esp_timer_stop(s_trial_timer);`
  pub stop : Option Timer → World → World
  stop none w = w
  stop (some timer) w = (timer_stop timer w).1

  unfoldable pub trial_confirm : State → Err × State
  unfolding stop
  trial_confirm s =
      if is_on_trial s.world
      then (let (err, w) = ota_mark_app_valid_cancel_rollback (stop s.timer s.world) in
          (err, record { timer = s.timer; world = w }))
      else (invalid_state, s)

  -- `ota_api_trial_reject` returns only if the rollback is refused, and then with its error.
  unfoldable pub trial_reject : State → Rollback World
  trial_reject s = ota_mark_app_invalid_rollback_and_reboot s.world
