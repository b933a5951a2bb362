-- ===== src/System/Images.antt =====
-- The images on a device: the one that runs, which may be on trial, and one to go back to.
use esp32s3_ota_api.Prelude.{◌≡◌, sym, ◌∙◌, Bool, true, false}

-- An image on trial has one to go back to.
abbrev pub IsRecoverable : {W : Type 0} → (W → Bool) → (W → Bool) → W → Type 0
IsRecoverable on_trial fallback w = on_trial w ≡ true → fallback w ≡ true

-- Neither is touched on the way from `w` to `v`.
abbrev pub IsUnchanged : {W : Type 0} → (W → Bool) → (W → Bool) → W → W → Type 0
IsUnchanged on_trial fallback w v = (on_trial v ≡ on_trial w) × (fallback v ≡ fallback w)

module _ {W : Type 0} (on_trial fallback : W → Bool) where
  pub carried :
      (w v : W)
      → IsUnchanged on_trial fallback w v
      → IsRecoverable on_trial fallback w
      → IsRecoverable on_trial fallback v
  carried w v (trial, kept) h on = kept ∙ h (sym trial ∙ on)

  pub settled : (w : W) → on_trial w ≡ false → IsRecoverable on_trial fallback w
  settled w off on = cc
