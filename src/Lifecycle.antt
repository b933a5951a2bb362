-- ===== src/Lifecycle.antt =====
-- The life of a device: updates (src/ota-api.c), trial runs (src/ota-api-trial.c), resets and
-- failures of the power supply, in any order.
pub mod Power
pub mod Recovery
pub mod Boot
mod Tests
use esp32s3_ota_api.Prelude.{ℕ, ◌≡◌, Bool, false, Option, none, some, []}
use esp32s3_ota_api.Err.{Err}
use esp32s3_ota_api.Slot.{initial}
use esp32s3_ota_api.Config.{Kconfig, Config}
use esp32s3_ota_api.System.{Platform, Sys}
use esp32s3_ota_api.System.Sharing.{Shared}
use esp32s3_ota_api.Update.{update}
use esp32s3_ota_api.Update.OnTrial.{IsTame}
use esp32s3_ota_api.Trial
use esp32s3_ota_api.Trial.{
  Rollback, rebooted, refused, is_on_trial, trial_timeout, trial_begin, trial_confirm, trial_reject,
}
use esp32s3_ota_api.Rollback.Startup.{Flash, board}
use esp32s3_ota_api.Lifecycle.Power.{powered, powered_config}

-- The bootloader, and `esp_ota_check_rollback_is_possible`: whether a valid image is there beside
-- the running one.
pub record Bootloader (W : Type 0) : Type 0 where
  pub ota_check_rollback_is_possible : W → Bool
  pub reset : W → W

module _ (P : Platform) (F : Flash (P.World)) (K : Kconfig) (L : Bootloader (P.World))
    (elapse : ℕ → P.World → P.World) (torn : P.World → P.World → P.World) where
  open P use {World}

  -- `s_trial_timer`, the slot, and the world.
  abbrev pub Device : Type 0
  Device = record { timer : Option F.Timer; shared : Shared; world : World }

  abbrev pub on_trial : World → Bool
  on_trial w = is_on_trial (board F) w

  abbrev pub trial_of : Device → Trial.State (board F)
  trial_of s = record { timer = s.timer; world = s.world }

  abbrev pub tried : Device → Err × Trial.State (board F) → Device
  tried s (err, s') = record s { timer = s'.timer; world = s'.world }

  -- A boot zeroes the statics.
  abbrev pub boot : World → Device
  boot w = record { timer = none; shared = record { slot = initial; other = false }; world = w }

  -- After a request for a rollback: the device comes up with the image before, or goes on.
  abbrev pub roll_back : Device → Rollback World → Device
  roll_back s (rebooted w) = boot w
  roll_back s (refused err w) = record s { world = w }

  abbrev pub called_back : Device → Option (Rollback World) → Device
  called_back s none = s
  called_back s (some r) = roll_back s r

  -- What the application may do, and what may happen to it: an update that comes to its end, or
  -- that the power fails, with `n` for the call that it fails in; the calls of the trial run; its
  -- timer's callback; time; a reset.
  pub data Step (s : Device) : Device → Type 0 where
    updates :
        (fuel : ℕ) (config : Config World) (r : Err × Sys World)
        → IsTame P config on_trial L.ota_check_rollback_is_possible
        → update P K fuel (some config) (record { shared = s.shared; world = s.world; trace = [] })
          ≡ some r
        → Step s (record s { shared = r.1.shared; world = r.1.world })
    loses_power :
        (n fuel : ℕ) (config : Config World) (r : Err × Sys (World × ℕ))
        → IsTame P config on_trial L.ota_check_rollback_is_possible
        → update
            (powered P torn)
            K
            fuel
            (some (powered_config P torn config))
            (record { shared = s.shared; world = (s.world, n); trace = [] })
          ≡ some r
        → Step s (boot (L.reset r.1.world.0))
    begins : (timeout_s : ℕ) → Step s (tried s (trial_begin (board F) K timeout_s (trial_of s)))
    confirms : Step s (tried s (trial_confirm (board F) (trial_of s)))
    rejects : Step s (roll_back s (trial_reject (board F) (trial_of s)))
    fires : Step s (called_back s (trial_timeout (board F) s.world))
    passes : (d : ℕ) → Step s (record s { world = elapse d s.world })
    resets : Step s (boot (L.reset s.world))

  pub data Reach (w : World) : Device → Type 0 where
    powered_on : Reach w (boot w)
    later : {s t : Device} → Reach w s → Step s t → Reach w t
