-- ===== src/Lifecycle/Recovery.antt =====
-- The life of a device: there is always an image to go back to.
use esp32s3_ota_api.Prelude.{ℕ, ◌≡◌, refl, Bool, true, false, inl, inr, Bool-cases}
use esp32s3_ota_api.Config.{Kconfig}
use esp32s3_ota_api.System.{Platform}
use esp32s3_ota_api.System.Images.{IsRecoverable, carried, settled}
use esp32s3_ota_api.Trial.{Rollback, rebooted, refused, is_on_trial, trial_timeout, trial_reject}
use esp32s3_ota_api.Trial.Recovery.{
  IsBootable, reset-IsRecoverable, begin-IsRecoverable, confirm-IsRecoverable,
}
use esp32s3_ota_api.Rollback.Startup.{Flash, board}
use esp32s3_ota_api.Update.OnTrial.{IsWriter}
use esp32s3_ota_api.Update.Recovery.{update-IsRecoverable}
use esp32s3_ota_api.Lifecycle.Power.{
  IsTorn, powered, powered_config, powered-IsWriter, powered-IsTame,
}
use esp32s3_ota_api.Lifecycle.{
  Bootloader, Device, roll_back, called_back, Step, updates, loses_power, begins, confirms, rejects,
  fires, passes, resets, Reach, powered_on, later,
}

module _ (P : Platform) (F : Flash (P.World)) (K : Kconfig) (L : Bootloader (P.World))
    (elapse : ℕ → P.World → P.World) (torn : P.World → P.World → P.World)
    (writer : IsWriter P (is_on_trial (board F)) L.ota_check_rollback_is_possible)
    (doc : IsBootable (board F) L.ota_check_rollback_is_possible elapse L.reset)
    (tears : IsTorn torn (is_on_trial (board F)))
    (tears_fallback : IsTorn torn L.ota_check_rollback_is_possible) where
  open P use {World}

  abbrev trial : World → Bool
  trial w = is_on_trial (board F) w

  abbrev fallback : World → Bool
  fallback w = L.ota_check_rollback_is_possible w

  abbrev pub Recoverable : World → Type 0
  Recoverable w = IsRecoverable (is_on_trial (board F)) L.ota_check_rollback_is_possible w

  roll_back-Recoverable :
      (s : Device P F K L elapse torn) (r : Rollback World)
      → F.ota_mark_app_invalid_rollback_and_reboot s.world ≡ r
      → Recoverable s.world
      → Recoverable (roll_back P F K L elapse torn s r).world
  roll_back-Recoverable s (rebooted w) e h = settled trial fallback w (doc.rolls_back s.world w e)
  roll_back-Recoverable s (refused err w) e h =
      carried trial fallback s.world w (doc.refuses s.world w err e) h

  fires-Recoverable :
      (s : Device P F K L elapse torn)
      → Recoverable s.world
      → Recoverable (called_back P F K L elapse torn s (trial_timeout (board F) s.world)).world
  unfolding trial_timeout
  fires-Recoverable s h = elim (Bool-cases (is_on_trial (board F) s.world)) [
    | inl on ↦ rw on (roll_back-Recoverable s _ refl h)
    | inr off ↦ rw off h
  ]

  Step-Recoverable :
      {s t : Device P F K L elapse torn}
      → Step P F K L elapse torn s t
      → Recoverable s.world
      → Recoverable t.world
  unfolding trial_reject
  Step-Recoverable {s} (updates fuel config r tame e) h =
      update-IsRecoverable P K config trial fallback writer tame fuel _ r h e
  Step-Recoverable {s} (loses_power n fuel config r tame e) h =
      reset-IsRecoverable (board F) K fallback elapse L.reset doc r.1.world.0 (
        update-IsRecoverable (powered P torn) K (powered_config P torn config) (λ v. trial v.0)
          (λ v. fallback v.0) (powered-IsWriter P torn trial fallback tears tears_fallback writer)
          (powered-IsTame P torn trial fallback tears tears_fallback config tame) fuel _ r h e)
  Step-Recoverable {s} (begins timeout_s) h =
      begin-IsRecoverable (board F) K fallback elapse L.reset doc timeout_s s.timer s.world h
  Step-Recoverable {s} confirms h =
      confirm-IsRecoverable (board F) K fallback elapse L.reset doc s.timer s.world h
  Step-Recoverable {s} rejects h = roll_back-Recoverable s _ refl h
  Step-Recoverable {s} fires h = fires-Recoverable s h
  Step-Recoverable {s} (passes d) h =
      carried trial fallback s.world (elapse d s.world) (doc.elapses d s.world) h
  Step-Recoverable {s} resets h =
      reset-IsRecoverable (board F) K fallback elapse L.reset doc s.world h

  pub Reach-Recoverable :
      {w : World} {s : Device P F K L elapse torn}
      → Recoverable w
      → Reach P F K L elapse torn w s
      → Recoverable s.world
  Reach-Recoverable h powered_on = h
  Reach-Recoverable h (later r st) = Step-Recoverable st (Reach-Recoverable h r)

  -- However updates, trial runs, resets and failures of the power supply follow one another on a
  -- device that starts with an image that is not on trial, or with one to go back to: whenever an
  -- image is on trial a valid one is there to go back to, and a reset gets the device off trial.
  -- The power may fail before, in or after any call of an update, and what a call does not change
  -- is then left as it was. It is taken that esp_https_ota_perform fails, and the calls before
  -- esp_https_ota_finish leave the other image alone, while one is on trial, and that the timers,
  -- the partition table and the bootloader do what is documented.
  pub Reach-Reverts :
      {w : World} {s : Device P F K L elapse torn}
      → Recoverable w
      → Reach P F K L elapse torn w s
      → is_on_trial (board F) s.world ≡ true
      → (L.ota_check_rollback_is_possible s.world ≡ true)
        × (is_on_trial (board F) (L.reset s.world) ≡ false)
  Reach-Reverts {s = s} h r on =
      let possible = Reach-Recoverable h r on in (possible, doc.reverts s.world on possible)
