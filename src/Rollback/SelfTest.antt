-- ===== src/Rollback/SelfTest.antt =====
-- examples/rollback/main/main.c: which images come as far as the update.
use esp32s3_ota_api.Prelude.{ℕ, ◌≡◌, refl, ◌∙◌, inl, inr, Bool, true, false, Option, Bool-cases}
use esp32s3_ota_api.Err.{Err, is_ok}
use esp32s3_ota_api.Config.{Kconfig}
use esp32s3_ota_api.Trial.{Board, State, is_on_trial, trial_confirm}
use esp32s3_ota_api.Trial.Laws.{IsDocumented, confirm-countdown}
use esp32s3_ota_api.Rollback.{
  run_diagnostic, Boot, goes_on, halted, restarted, check, self_test, check_connection, app_main,
}

module _ (B : Board) (K : Kconfig) (window : B.Timer → B.World → Option ℕ)
    (doc : IsDocumented B window) where
  open B use {World}

  -- What holds where the application goes on.
  abbrev pub IsVouched : Err → Boot B → Type 0
  IsVouched connect_err (goes_on s) = (is_ok connect_err ≡ true) × (is_on_trial B s.world ≡ false)
  IsVouched connect_err _ = Unit

  confirmed-IsVouched :
      (s : State B)
      → is_on_trial B s.world ≡ true
      → (err : Err) → is_ok err ≡ true
      → let (e, s') = trial_confirm B s in IsVouched err (check_connection B err (check B e s'))
  unfolding check check_connection
  confirmed-IsVouched s trial err ok =
      let t = trial_confirm B s in
      let (quiet, settled, late) = confirm-countdown B K window doc s trial in
      elim (Bool-cases (is_ok t.0)) [
        | inl written ↦ rw (written, check, check_connection, ok) (ok, settled ∙ rw written refl)
        | inr failed ↦ rw (failed, check, check_connection) tt
      ]

  check_connection-IsVouched :
      (s : State B)
      → is_on_trial B s.world ≡ false
      → (err : Err) → IsVouched err (check_connection B err (goes_on s))
  unfolding check check_connection
  check_connection-IsVouched s off err = elim (Bool-cases (is_ok err)) [
    | inl ok ↦ rw (ok, check, check_connection) (ok, off)
    | inr bad ↦ rw (bad, check, check_connection) tt
  ]

  unconnected-IsVouched :
      (err : Err) (b : Boot B) → is_ok err ≡ false → IsVouched err (check_connection B err b)
  unfolding check check_connection
  unconnected-IsVouched err (goes_on s) bad = rw (bad, check, check_connection) tt
  unconnected-IsVouched err (halted s) bad = tt
  unconnected-IsVouched err (restarted w) bad = tt

  pub self_test-IsVouched :
      (pending : Bool) (err : Err) (s : State B)
      → is_on_trial B s.world ≡ pending
      → IsVouched err (check_connection B err (self_test B pending err s))
  unfolding self_test run_diagnostic
  self_test-IsVouched false err s off = check_connection-IsVouched s off err
  self_test-IsVouched true err s trial = elim (Bool-cases (is_ok err)) [
    | inl ok ↦ rw (ok, self_test) (confirmed-IsVouched s trial err ok)
    | inr bad ↦ unconnected-IsVouched err _ bad
  ]

  -- The application goes on to its update only with a network, and with an image that is not on
  -- trial: one that was on trial has passed the self-test and is confirmed. In every other case the
  -- device reboots or halts. It is taken that `example_connect` leaves the partition table
  -- alone, and that the board does what is documented.
  pub app_main-IsVouched :
      (example_connect : World → Err × World) (s : State B)
      → is_on_trial B (example_connect s.world).1 ≡ is_on_trial B s.world
      → IsVouched (example_connect s.world).0 (app_main B example_connect s)
  unfolding app_main
  app_main-IsVouched example_connect s same =
      self_test-IsVouched (is_on_trial B s.world) (example_connect s.world).0
        (record { timer = s.timer; world = (example_connect s.world).1 }) same
