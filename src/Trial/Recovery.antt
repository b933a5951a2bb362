-- ===== src/Trial/Recovery.antt =====
-- src/ota-api-trial.c: what a trial run may do to the image to go back to.
use esp32s3_ota_api.Prelude.{
  ℕ, ◌*◌, ◌%◌, ◌^◌, ◌≡◌, inl, inr, Bool, true, false, Option, none, some, if◌then◌else◌, Bool-cases,
}
use esp32s3_ota_api.Err.{Err, is_ok}
use esp32s3_ota_api.Config.{Kconfig}
use esp32s3_ota_api.System.Images.{IsRecoverable, IsUnchanged, carried, settled}
use esp32s3_ota_api.Trial.{
  Board, rebooted, refused, is_on_trial, start, with_timer, trial_begin, stop, trial_confirm,
}

-- What the timers, the partition table and the bootloader document. Timers and time are apart from
-- the images; a table that could not be written is as it was; an image marked valid is on trial no
-- more. A rollback, and a reset on trial where a valid image is there, lead to an image that is not
-- on trial; a reset off trial may boot a new image on trial, and leaves the one that ran, which is
-- valid, to go back to.
pub record IsBootable (B : Board) (fallback : B.World → Bool) (elapse : ℕ → B.World → B.World)
    (reset : B.World → B.World) : Type 0 where
  pub creates : (w : B.World) → IsUnchanged (is_on_trial B) fallback w (B.timer_create w).1
  pub starts :
      (t : B.Timer) (d : ℕ) (w : B.World)
      → IsUnchanged (is_on_trial B) fallback w (B.timer_start_once t d w).1
  pub stops :
      (t : B.Timer) (w : B.World) → IsUnchanged (is_on_trial B) fallback w (B.timer_stop t w).1
  pub elapses : (d : ℕ) (w : B.World) → IsUnchanged (is_on_trial B) fallback w (elapse d w)
  pub marks :
      (w : B.World)
      → let (err, w') = B.ota_mark_app_valid_cancel_rollback w in
        if is_ok err then is_on_trial B w' ≡ false else IsUnchanged (is_on_trial B) fallback w w'
  pub rolls_back :
      (w w' : B.World)
      → B.ota_mark_app_invalid_rollback_and_reboot w ≡ rebooted w'
      → is_on_trial B w' ≡ false
  pub refuses :
      (w w' : B.World) (err : Err)
      → B.ota_mark_app_invalid_rollback_and_reboot w ≡ refused err w'
      → IsUnchanged (is_on_trial B) fallback w w'
  pub reverts :
      (w : B.World) → is_on_trial B w ≡ true → fallback w ≡ true → is_on_trial B (reset w) ≡ false
  pub boots_new :
      (w : B.World)
      → is_on_trial B w ≡ false
      → is_on_trial B (reset w) ≡ true
      → fallback (reset w) ≡ true

module _ (B : Board) (K : Kconfig) (fallback : B.World → Bool) (elapse : ℕ → B.World → B.World)
    (reset : B.World → B.World) (doc : IsBootable B fallback elapse reset) where
  abbrev Recoverable : B.World → Type 0
  Recoverable w = IsRecoverable (is_on_trial B) fallback w

  pub reset-IsRecoverable : (w : B.World) → Recoverable w → Recoverable (reset w)
  reset-IsRecoverable w h = elim (Bool-cases (is_on_trial B w)) [
    | inl on ↦ settled (is_on_trial B) fallback (reset w) (doc.reverts w on (h on))
    | inr off ↦ doc.boots_new w off
  ]

  start-IsRecoverable :
      (t : B.Timer) (n : ℕ) (w : B.World) → Recoverable w → Recoverable (start B t n w).1.world
  unfolding start
  start-IsRecoverable t n w h =
      carried (is_on_trial B) fallback w _ (doc.starts t ((n * 1000000) % 2 ^ 64) w) h

  with_timer-IsRecoverable :
      (timer : Option B.Timer) (n : ℕ) (w : B.World)
      → Recoverable w
      → Recoverable (with_timer B timer n w).1.world
  unfolding with_timer
  with_timer-IsRecoverable (some t) n w h = start-IsRecoverable t n w h
  with_timer-IsRecoverable none n w h =
      let x = B.timer_create w in
      let created = carried (is_on_trial B) fallback w x.1 (doc.creates w) h in
      elim (Bool-cases (is_ok x.0.0)) [
        | inl ok ↦ rw (ok, with_timer) (start-IsRecoverable x.0.1 n x.1 created)
        | inr bad ↦ rw (bad, with_timer) created
      ]

  pub begin-IsRecoverable :
      (timeout_s : ℕ) (timer : Option B.Timer) (w : B.World)
      → Recoverable w
      → Recoverable (trial_begin B K timeout_s (record { timer = timer; world = w })).1.world
  unfolding trial_begin
  begin-IsRecoverable timeout_s timer w h = elim (Bool-cases (is_on_trial B w)) [
    | inl on ↦ rw (on, trial_begin) (with_timer-IsRecoverable timer _ w h)
    | inr off ↦ rw (off, trial_begin) h
  ]

  stop-IsRecoverable :
      (timer : Option B.Timer) (w : B.World) → Recoverable w → Recoverable (stop B timer w)
  unfolding stop
  stop-IsRecoverable none w h = h
  stop-IsRecoverable (some t) w h = carried (is_on_trial B) fallback w _ (doc.stops t w) h

  mark-IsRecoverable :
      (w : B.World) → Recoverable w → Recoverable (B.ota_mark_app_valid_cancel_rollback w).1
  mark-IsRecoverable w h = elim (Bool-cases (is_ok (B.ota_mark_app_valid_cancel_rollback w).0)) [
    | inl ok ↦ settled (is_on_trial B) fallback _ (rw ok at (doc.marks w))
    | inr bad ↦ carried (is_on_trial B) fallback w _ (rw bad at (doc.marks w)) h
  ]

  pub confirm-IsRecoverable :
      (timer : Option B.Timer) (w : B.World)
      → Recoverable w
      → Recoverable (trial_confirm B (record { timer = timer; world = w })).1.world
  unfolding trial_confirm
  confirm-IsRecoverable timer w h = elim (Bool-cases (is_on_trial B w)) [
    | inl on ↦
        rw (on, trial_confirm) (mark-IsRecoverable (stop B timer w) (stop-IsRecoverable timer w h))
    | inr off ↦ rw (off, trial_confirm) h
  ]
