-- ===== src/Trial/Race/Invariant.antt =====
-- src/ota-api-trial.c: what holds however a confirmation and the callback interleave.
use esp32s3_ota_api.Prelude.{
  ℕ, ◌≡◌, refl, ◌∙◌, inl, inr, Bool, true, false, not, ◌&&◌, Option, none, some, List, [], ◌∷◌,
  arith, is_some, Bool-cases,
}
use esp32s3_ota_api.Err.{Err, is_ok}
use esp32s3_ota_api.Config.{Kconfig}
use esp32s3_ota_api.Trial.{Board, Rollback, rebooted, refused, is_on_trial}
use esp32s3_ota_api.Trial.Laws.{
  IsDocumented, countdown, stop-on_trial, stop-countdown, mark_valid-countdown,
}
use esp32s3_ota_api.Trial.Race.{
  Confirm, idle, checked, stopped, marked, off_trial, Callback, waiting, dispatched, saw_trial,
  returned, rolled_back, Service, Move, confirms, times_out, passes, Race, begun, confirm_step,
  fire, roll_back, callback_step, is_gone, step, race,
}

-- What is documented of a timer, of its dispatch, and of a rollback that is refused. `window` is
-- that of a running timer.
pub record IsTimely (B : Board) (S : Service B) (window : B.Timer → B.World → Option ℕ)
    : Type 0 where
  pub expired_runs :
      (t : B.Timer) (w : B.World) → S.expired t w ≡ true → is_some (window t w) ≡ true
  pub dispatch_on_trial :
      (t : B.Timer) (w : B.World) → is_on_trial B (S.dispatch t w) ≡ is_on_trial B w
  pub elapse_idle :
      (t : B.Timer) (d : ℕ) (w : B.World) → window t w ≡ none → window t (S.elapse d w) ≡ none
  pub elapse_on_trial : (d : ℕ) (w : B.World) → is_on_trial B (S.elapse d w) ≡ is_on_trial B w
  pub refused_on_trial :
      (w w' : B.World) (err : Err)
      → B.ota_mark_app_invalid_rollback_and_reboot w ≡ refused err w'
      → is_on_trial B w' ≡ is_on_trial B w

-- Past its test, past the stop of the timer, and past a mark that was written.
abbrev pub has_checked : Confirm → Bool
has_checked idle = false
has_checked off_trial = false
has_checked _ = true

abbrev pub has_stopped : Confirm → Bool
has_stopped stopped = true
has_stopped (marked err) = true
has_stopped _ = false

abbrev pub has_confirmed : Confirm → Bool
has_confirmed (marked err) = is_ok err
has_confirmed _ = false

abbrev pub is_waiting : Callback → Bool
is_waiting waiting = true
is_waiting _ = false

module _ (B : Board) (K : Kconfig) (window : B.Timer → B.World → Option ℕ)
    (doc : IsDocumented B window) (S : Service B) (timely : IsTimely B S window) where
  open B use {World, Timer}

  abbrev pub Quiet : Option Timer → World → Type 0
  Quiet timer w = countdown B K window doc (record { timer = timer; world = w }) ≡ none

  pub record Inv (timer : Option Timer) (w : World) (confirm : Confirm) (callback : Callback)
      : Type 0 where
    pub trial :
        (has_checked confirm && not (is_gone callback)) ≡ true
        → is_on_trial B w ≡ not (has_confirmed confirm)
    pub quiet : (has_stopped confirm && is_waiting callback) ≡ true → Quiet timer w

  abbrev pub Holds : Race B S → Type 0
  Holds s = Inv s.timer s.world s.confirm s.callback

  confirm_step-Holds :
      (timer : Option Timer) (w : World) (confirm : Confirm) (callback : Callback)
      → is_gone callback ≡ false
      → Inv timer w confirm callback
      → Holds (
          confirm_step B S confirm
            (record { timer = timer; world = w; confirm = confirm; callback = callback }))
  unfolding confirm_step
  confirm_step-Holds timer w idle callback live inv = elim (Bool-cases (is_on_trial B w)) [
    | inl trial ↦ rw (trial) (record { trial = λ h. trial; quiet = λ h. cc })
    | inr settled ↦ rw settled (record { trial = λ h. cc; quiet = λ h. cc })
  ]
  confirm_step-Holds timer w checked callback live inv = record {
    trial = λ h. stop-on_trial B K window doc timer w ∙ inv.trial h;
    quiet = λ h. stop-countdown B K window doc timer w;
  }
  confirm_step-Holds timer w stopped callback live inv = record {
    trial = λ h. let before = inv.trial h in let marks = doc.mark_valid w in ground (arith);
    quiet = λ h. mark_valid-countdown B K window doc timer w ∙ inv.quiet h;
  }
  confirm_step-Holds timer w (marked err) callback live inv = inv
  confirm_step-Holds timer w off_trial callback live inv = inv

  roll_back-Holds :
      (timer : Option Timer) (w : World) (confirm : Confirm) (answer : Rollback World)
      → B.ota_mark_app_invalid_rollback_and_reboot w ≡ answer
      → Inv timer w confirm saw_trial
      → Holds (
          roll_back B S answer
            (record { timer = timer; world = w; confirm = confirm; callback = saw_trial }))
  unfolding roll_back
  roll_back-Holds timer w confirm (rebooted w') e inv = record {
    trial = λ h. ground arith;
    quiet = λ h. ground arith;
  }
  roll_back-Holds timer w confirm (refused err w') e inv = record {
    trial = λ h. timely.refused_on_trial w w' err e ∙ inv.trial h;
    quiet = λ h. ground arith;
  }

  fire-Holds :
      (timer : Option Timer) (w : World) (confirm : Confirm)
      → Inv timer w confirm waiting
      → Holds (
          fire B S timer
            (record { timer = timer; world = w; confirm = confirm; callback = waiting }))
  unfolding fire
  fire-Holds none w confirm inv = inv
  fire-Holds (some t) w confirm inv = elim (Bool-cases (S.expired t w)) [
    | inl up ↦ rw up (record {
      trial = λ h. timely.dispatch_on_trial t w ∙ inv.trial h;
      quiet = λ h. ground arith;
    })
    | inr running ↦ rw running inv
  ]

  callback_step-Holds :
      (timer : Option Timer) (w : World) (confirm : Confirm) (callback : Callback)
      → Inv timer w confirm callback
      → Holds (
          callback_step B S callback
            (record { timer = timer; world = w; confirm = confirm; callback = callback }))
  unfolding callback_step
  callback_step-Holds timer w confirm waiting inv = fire-Holds timer w confirm inv
  callback_step-Holds timer w confirm dispatched inv = elim (Bool-cases (is_on_trial B w)) [
    | inl trial ↦ rw trial (record { trial = inv.trial; quiet = λ h. ground arith })
    | inr settled ↦ rw settled (record { trial = inv.trial; quiet = λ h. ground arith })
  ]
  callback_step-Holds timer w confirm saw_trial inv = roll_back-Holds timer w confirm _ refl inv
  callback_step-Holds timer w confirm returned inv = inv
  callback_step-Holds timer w confirm rolled_back inv = inv

  elapse-Quiet :
      (timer : Option Timer) (d : ℕ) (w : World) → Quiet timer w → Quiet timer (S.elapse d w)
  elapse-Quiet none d w h = refl
  elapse-Quiet (some t) d w h = timely.elapse_idle t d w h

  live_step-Holds :
      (move : Move) (s : Race B S) → is_gone s.callback ≡ false → Holds s → Holds (step B S move s)
  unfolding step
  live_step-Holds confirms s live inv =
      rw (live, step) (confirm_step-Holds s.timer s.world s.confirm s.callback live inv)
  live_step-Holds times_out s live inv =
      rw (live, step) (callback_step-Holds s.timer s.world s.confirm s.callback inv)
  live_step-Holds (passes d) s live inv =
      rw (live, step)
        (record {
          trial = λ h. timely.elapse_on_trial d s.world ∙ inv.trial h;
          quiet = λ h. elapse-Quiet s.timer d s.world (inv.quiet h);
        })

  pub gone_step : (move : Move) (s : Race B S) → is_gone s.callback ≡ true → step B S move s ≡ s
  unfolding step
  gone_step confirms s gone = rw (gone, step) refl
  gone_step times_out s gone = rw (gone, step) refl
  gone_step (passes d) s gone = rw (gone, step) refl

  pub step-Holds : (move : Move) (s : Race B S) → Holds s → Holds (step B S move s)
  step-Holds move s inv = elim (Bool-cases (is_gone s.callback)) [
    | inl gone ↦ rw (gone_step move s gone) inv
    | inr live ↦ live_step-Holds move s live inv
  ]

  pub race-Holds : (moves : List Move) (s : Race B S) → Holds s → Holds (race B S moves s)
  unfolding race
  race-Holds [] s inv = inv
  race-Holds (move ∷ moves) s inv = race-Holds moves (step B S move s) (step-Holds move s inv)

  pub begun-Holds : (timer : Option Timer) (w : World) → Holds (begun B S timer w)
  begun-Holds timer w = record { trial = λ h. cc; quiet = λ h. cc }
