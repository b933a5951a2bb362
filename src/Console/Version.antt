-- ===== src/Console/Version.antt =====
-- examples/advanced/main/main.c: the command `version`, and what it tells of the trial.
use esp32s3_ota_api.Prelude.{
  ℕ, ◌≡◌, ◌↔◌, refl, true, false, inl, inr, Bool-cases, ◌++◌, arith, ap, length, ◌==◌,
  if◌then◌else◌,
}
use esp32s3_ota_api.Prelude.CString.{CString, codes}
use esp32s3_ota_api.Err.{Err, is_ok}
use esp32s3_ota_api.Trial.{Board, ImgState, is_pending_verify, is_on_trial}
use esp32s3_ota_api.Version.{Description, Place, identity_lines}

abbrev on_trial : CString
on_trial = codes "state       : PENDING_VERIFY (on trial)\n"

abbrev confirmed : CString
confirmed = codes "state       : confirmed\n"

abbrev not_tracked : CString
not_tracked = codes "state       : not tracked (factory partition)\n"

apart : (line : CString) → line ≡ on_trial → (length line == length on_trial) ≡ false → ⊥
apart line e other = absurd (ground (arith, ap length e, other))

module _ (B : Board) where
  open B use {World, Partition, ota_get_running_partition, ota_get_state_partition}

  -- The last line.
  abbrev pub state_line : Err × ImgState → CString
  state_line (err, state) =
      if is_ok err then (if is_pending_verify state then on_trial else confirmed) else not_tracked

  -- With the description of the image and where a partition lies.
  unfoldable pub cmd_version : Description → (Partition → Place) → World → ℕ × CString
  unfolding identity_lines
  cmd_version app_desc place w =
      let running = ota_get_running_partition w in
      (0, identity_lines app_desc (place running) ++ state_line (ota_get_state_partition running w))

  -- The last line says that the image is on trial exactly if `ota_api_is_on_trial` does, which
  -- `status` prints.
  state_line-on_trial :
      (w : World)
      → (state_line (ota_get_state_partition (ota_get_running_partition w) w) ≡ on_trial)
        ↔ (is_on_trial B w ≡ true)
  unfolding is_on_trial
  state_line-on_trial w =
      let (err, state) = ota_get_state_partition (ota_get_running_partition w) w in
      elim (Bool-cases (is_ok err)) [
        | inl ok ↦ elim (Bool-cases (is_pending_verify state)) [
          | inl pending ↦ rw (ok, pending) (λ e. refl, λ e. refl)
          | inr not_pending ↦
              rw (ok, not_pending)
                (λ e. absurd (apart confirmed e refl), λ e. absurd (ground (arith, e)))
        ]
        | inr bad ↦ rw bad (λ e. absurd (apart not_tracked e refl), λ e. absurd (ground (arith, e)))
      ]
