-- ===== src/Update/Document.antt =====
-- src/ota-api.c, `ota_api_update`, against docs/update_state_machine.md, for every argument.
mod Tests
use mathlib.Core.Path.{subst}
use mathlib.Core.Option.{some-injective}
use esp32s3_ota_api.Prelude.{
  ℕ, ◌≡◌, refl, sym, inl, inr, Bool, true, false, Option, none, some, List, [], is_some,
  Option-cases, arith, if◌then◌else◌,
}
use esp32s3_ota_api.Err.{Err, invalid_arg}
use esp32s3_ota_api.Config.{Kconfig, Config, Event}
use esp32s3_ota_api.System.{Platform, Sys}
use esp32s3_ota_api.Update.{update}
use esp32s3_ota_api.Update.Machine.{done, run}
use esp32s3_ota_api.Update.Listener.{IsListener, dispatches, Hears, update-Hears}
use esp32s3_ota_api.Update.Outcome.{update-phase}

-- A config and a URL are given.
abbrev pub is_given : {W : Type 0} → Option (Config W) → Bool
is_given none = false
is_given (some config) = is_some config.url

module _ (P : Platform) (K : Kconfig) (heard : P.World → List (Event × Err)) where
  open P use {World}

  -- What `event_cb` is called with, if there is one.
  abbrev pub Listens : Option (Config World) → Type 0
  Listens none = Unit
  Listens (some config) = IsListener P config heard

  abbrev pub IsHeard : Option (Config World) → Sys World → Type 0
  IsHeard none s = heard s.world ≡ []
  IsHeard (some config) s =
      heard s.world ≡ (if is_some config.event_cb then dispatches s.trace else [])

  abbrev pub IsRun : Option (Config World) → Err × Sys World → Type 0
  IsRun config r = (run (is_given config) r.1.trace ≡ some (done r.0)) × IsHeard config r.1

  -- Whatever the argument, the calls that a run of `ota_api_update` makes, and their results, take
  -- the machine of docs/update_state_machine.md from IDLE back to IDLE, with the result that the
  -- run returns; without a config or a URL that is the edge from IDLE with ESP_ERR_INVALID_ARG. The
  -- events of the log, with their answers, are just those that an application keeps whose callback
  -- lists them as it is called; without a callback it hears nothing.
  pub update-IsRun :
      (fuel : ℕ) (config : Option (Config World)) (s : Sys World) (r : Err × Sys World)
      → Listens config
      → s.trace ≡ []
      → heard s.world ≡ []
      → update P K fuel config s ≡ some r
      → IsRun config r
  unfolding update
  update-IsRun fuel none s r listens fresh silent e =
      subst (IsRun none) (some-injective _ _ e) (rw fresh refl, silent)
  update-IsRun fuel (some config) s r listens fresh silent e = elim (Option-cases config.url) [
    | inl missing ↦
        let refused : some (invalid_arg, s) ≡ some r = rw missing at e in
        let nothing : (if is_some config.event_cb then [] else []) ≡ heard s.world =
          ground (arith, silent) in
        subst (IsRun (some config)) (some-injective _ _ refused)
          (rw (missing, fresh) refl, rw fresh (sym nothing))
    | inr (url, given) ↦ (
      rw given (update-phase P K config fuel url s r given fresh e),
      update-Hears P K config heard listens fuel url s r given fresh silent e,
    )
  ]
