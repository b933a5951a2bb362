-- ===== src/Rollback/Verdict.antt =====
-- examples/rollback/main/main.c: why an image is kept, given up or halted on.
use esp32s3_ota_api.Prelude.{◌≡◌, refl, ◌⊎◌, inl, inr, Bool, true, false, Bool-cases}
use esp32s3_ota_api.Err.{Err, is_ok}
use esp32s3_ota_api.Trial.{Board, State, Rollback, rebooted, refused, trial_confirm, trial_reject}
use esp32s3_ota_api.Rollback.{
  run_diagnostic, Boot, goes_on, halted, restarted, check, reject, self_test, check_connection,
}

module _ (B : Board) where
  -- The reasons for each outcome of the self-test and the check of the connection.
  abbrev pub Reason : Bool → Err → State B → Boot B → Type 0
  Reason pending_verify connect_err s (goes_on _) = is_ok connect_err ≡ true
  Reason pending_verify connect_err s (halted _) =
      (is_ok connect_err ≡ false) ⊎ (is_ok (trial_confirm B s).0 ≡ false)
  Reason pending_verify connect_err s (restarted _) =
      (pending_verify ≡ true) × (is_ok connect_err ≡ false)

  rejected-Reason :
      (connect_err : Err) (s : State B) (r : Rollback B.World)
      → is_ok connect_err ≡ false
      → Reason true connect_err s (check_connection B connect_err (reject B s.timer r))
  unfolding reject check_connection check
  rejected-Reason connect_err s (rebooted w) bad = (refl, bad)
  rejected-Reason connect_err s (refused err w) bad = rw (bad, check) (inl bad)

  confirmed-Reason :
      (connect_err : Err) (s : State B)
      → is_ok connect_err ≡ true
      → let (err, s') = trial_confirm B s in
        Reason true connect_err s (check_connection B connect_err (check B err s'))
  unfolding check_connection check
  confirmed-Reason connect_err s ok = elim (Bool-cases (is_ok (trial_confirm B s).0)) [
    | inl written ↦ rw (written, check, check_connection, ok) ok
    | inr not_written ↦ rw (not_written, check, check_connection) (inr not_written)
  ]

  pub verdict-Reason :
      (pending_verify : Bool) (connect_err : Err) (s : State B)
      → Reason pending_verify connect_err s
          (check_connection B connect_err (self_test B pending_verify connect_err s))
  unfolding self_test check_connection check run_diagnostic
  verdict-Reason false connect_err s = elim (Bool-cases (is_ok connect_err)) [
    | inl ok ↦ rw (ok, check) ok
    | inr bad ↦ rw (bad, check) (inl bad)
  ]
  verdict-Reason true connect_err s = elim (Bool-cases (is_ok connect_err)) [
    | inl ok ↦ rw (ok, self_test) (confirmed-Reason connect_err s ok)
    | inr bad ↦ rw (bad, self_test) (rejected-Reason connect_err s (trial_reject B s) bad)
  ]
