-- ===== src/Update/Claim.antt =====
-- src/ota-api.c, `ota_api_update`: the two ways that the claim of the slot can go.
use esp32s3_ota_api.Prelude.{ℕ, ◌≡◌, refl, true, false, some, arith}
use esp32s3_ota_api.Prelude.CString.{CString}
use esp32s3_ota_api.Err.{invalid_state}
use esp32s3_ota_api.Slot.{claim_update_slot}
use esp32s3_ota_api.Config.{Kconfig, Config}
use esp32s3_ota_api.System.{Platform, Sys, mark, claimed}
use esp32s3_ota_api.Update.Machine.Objections.{attempts}
use esp32s3_ota_api.Update.{claim, release, run_update, announce, claimed_update, update}

-- The state once the slot is claimed.
abbrev pub taken : {W : Type 0} → Sys W → Sys W
taken s = mark (claimed true) (record s {
  shared = record s.shared { slot = record { running = true; abort_requested = false } };
})

pub release-world : {W : Type 0} (s : Sys W) → (release s).world ≡ s.world
unfolding release
release-world s = refl

pub release-attempts : {W : Type 0} (s : Sys W) → attempts (release s).trace ≡ attempts s.trace
unfolding release
release-attempts s = refl

module _ (P : Platform) (K : Kconfig) (config : Config (P.World)) where
  open P use {World}

  pub update-free :
      (fuel : ℕ) (url : CString) (s : Sys World)
      → config.url ≡ some url
      → s.shared.slot.running ≡ false
      → update P K fuel (some config) s
        ≡ announce P K config (run_update P K fuel url config (taken s))
  unfolding update claimed_update claim claim_update_slot
  update-free fuel url s given free = ground arith

  -- While another update runs, a second one is refused with ESP_ERR_INVALID_STATE: no event is
  -- dispatched, nothing else is called, and the slot and the world stay as they were.
  pub update-busy :
      (fuel : ℕ) (url : CString) (s : Sys World)
      → config.url ≡ some url
      → s.shared.slot.running ≡ true
      → update P K fuel (some config) s ≡ some (invalid_state, mark (claimed false) s)
  unfolding update claimed_update claim claim_update_slot
  update-busy fuel url s given busy = ground arith
