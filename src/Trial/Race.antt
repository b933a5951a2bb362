-- ===== src/Trial/Race.antt =====
-- src/ota-api-trial.c: a confirmation against the timer's callback, which runs in the timer task.
-- The two interleave at each call of the code outside, as the comment in `trial_timeout` says they
-- may.
pub mod Invariant
pub mod Laws
mod Alone
mod Tests
use esp32s3_ota_api.Prelude.{
  ℕ, ◌≡◌, Bool, true, false, Option, none, some, List, [], ◌∷◌, if◌then◌else◌, is_some,
}
use esp32s3_ota_api.Err.{Err, is_ok}
use esp32s3_ota_api.Trial.{Board, Rollback, rebooted, refused, is_on_trial, stop}

-- Where `ota_api_trial_confirm` is: before its test, after it, after `esp_timer_stop`, at its return
-- with the answer of the partition table, or at its early return.
pub data Confirm : Type 0 where
  idle checked stopped : Confirm
  marked : Err → Confirm
  off_trial : Confirm

-- Where `trial_timeout` is: not dispatched, before its test, between the test and the rollback, at
-- its return; or the rollback has rebooted the device.
pub data Callback : Type 0 where
  waiting dispatched saw_trial returned rolled_back : Callback

abbrev pub is_gone : Callback → Bool
is_gone rolled_back = true
is_gone _ = false

-- What esp_timer does on its own: whether a timer is up, its dispatch, and the passing of time.
pub record Service (B : Board) : Type 0 where
  pub expired : B.Timer → B.World → Bool
  pub dispatch : B.Timer → B.World → B.World
  pub elapse : ℕ → B.World → B.World

pub data Move : Type 0 where
  confirms times_out : Move
  passes : ℕ → Move

module _ (B : Board) (S : Service B) where
  open B use {
    World, Timer, ota_mark_app_valid_cancel_rollback, ota_mark_app_invalid_rollback_and_reboot,
  }
  open S use {expired, dispatch, elapse}

  -- `s_trial_timer`, the world, and the two tasks. No other task begins a trial meanwhile.
  pub record Race : Type 0 where
    pub timer : Option Timer
    pub world : World
    pub confirm : Confirm
    pub callback : Callback

  abbrev pub begun : Option Timer → World → Race
  begun timer w = record { timer = timer; world = w; confirm = idle; callback = waiting }

  pub confirm_step : Confirm → Race → Race
  unfolding stop
  confirm_step idle s = record s { confirm = if is_on_trial B s.world then checked else off_trial }
  confirm_step checked s = record s { confirm = stopped; world = stop B s.timer s.world }
  confirm_step stopped s =
      let (err, w) = ota_mark_app_valid_cancel_rollback s.world in
      record s { confirm = marked err; world = w }
  confirm_step _ s = s

  pub fire : Option Timer → Race → Race
  fire none s = s
  fire (some t) s =
      if expired t s.world
      then record s { callback = dispatched; world = dispatch t s.world }
      else s

  pub roll_back : Rollback World → Race → Race
  roll_back (rebooted w) s = record s { callback = rolled_back; world = w }
  roll_back (refused err w) s = record s { callback = returned; world = w }

  pub callback_step : Callback → Race → Race
  unfolding fire roll_back
  callback_step waiting s = fire s.timer s
  callback_step dispatched s = record s {
    callback = if is_on_trial B s.world then saw_trial else returned;
  }
  callback_step saw_trial s = roll_back (ota_mark_app_invalid_rollback_and_reboot s.world) s
  callback_step _ s = s

  -- Nothing runs on a device that has rebooted.
  pub step : Move → Race → Race
  unfolding confirm_step callback_step
  step confirms s = if is_gone s.callback then s else confirm_step s.confirm s
  step times_out s = if is_gone s.callback then s else callback_step s.callback s
  step (passes d) s = if is_gone s.callback then s else record s { world = elapse d s.world }

  unfoldable pub race : List Move → Race → Race
  unfolding step
  race [] s = s
  race (move ∷ moves) s = race moves (step move s)
