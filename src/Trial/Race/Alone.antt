-- ===== src/Trial/Race/Alone.antt =====
-- src/ota-api-trial.c: the two tasks step by step against the functions run in one go.
use esp32s3_ota_api.Prelude.{◌≡◌, refl, inl, inr, Option, none, some, [], ◌∷◌, Bool-cases}
use esp32s3_ota_api.Err.{Err, invalid_state}
use esp32s3_ota_api.Trial.{
  Board, Rollback, rebooted, refused, is_on_trial, trial_confirm, trial_timeout,
}
use esp32s3_ota_api.Trial.Race.{
  Confirm, marked, off_trial, Callback, dispatched, saw_trial, returned, Service, confirms,
  times_out, Race, begun, confirm_step, roll_back, callback_step, step, race,
}

-- What `ota_api_trial_confirm` has answered.
abbrev pub answered : Confirm → Option Err
answered (marked err) = some err
answered off_trial = some invalid_state
answered _ = none

module _ (B : Board) (S : Service B) where
  open B use {World, Timer}

  -- The end of the callback.
  abbrev end_of : Option (Rollback World) → Race B S → Race B S
  end_of none s = record s { callback = returned }
  end_of (some answer) s = roll_back B S answer s

  roll_back_anywhere :
      (answer : Rollback World) (s : Race B S) (c : Callback)
      → roll_back B S answer (record s { callback = c }) ≡ roll_back B S answer s
  unfolding roll_back
  roll_back_anywhere (rebooted w) s c = refl
  roll_back_anywhere (refused err w) s c = refl

  -- Left to themselves, the steps of the confirmation are `ota_api_trial_confirm`, and those of the
  -- callback are `trial_timeout`.
  race_alone :
      (timer : Option Timer) (w : World)
      → let t = race B S (confirms ∷ confirms ∷ confirms ∷ []) (begun B S timer w) in
        let (err, s) = trial_confirm B (record { timer = timer; world = w }) in
        let up : Race B S = record (begun B S timer w) { callback = dispatched } in
        (t.world ≡ s.world)
        × (answered t.confirm ≡ some err)
        × (race B S (times_out ∷ times_out ∷ []) up ≡ end_of (trial_timeout B w) up)
  unfolding race step confirm_step callback_step roll_back trial_confirm trial_timeout
  race_alone timer w = elim (Bool-cases (is_on_trial B w)) [
    | inl trial ↦
        rw (trial, trial_confirm, confirm_step, callback_step)
          (
            refl,
            refl,
            roll_back_anywhere _ (record (begun B S timer w) { callback = dispatched }) saw_trial,
          )
    | inr settled ↦ rw (settled, trial_confirm, confirm_step, callback_step) (refl, refl, refl)
  ]
