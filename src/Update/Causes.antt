-- ===== src/Update/Causes.antt =====
-- src/ota-api.c, `ota_api_update`: how the callback's answers and a request to stop decide a run.
use esp32s3_ota_api.Prelude.{ℕ, ◌≡◌, true, some, List, []}
use esp32s3_ota_api.Prelude.CString.{CString}
use esp32s3_ota_api.Err.{Err}
use esp32s3_ota_api.Config.{Kconfig, Config, Event, EventCb}
use esp32s3_ota_api.System.{Platform, Sys}
use esp32s3_ota_api.Update.{update}
use esp32s3_ota_api.Update.Machine.{done}
use esp32s3_ota_api.Update.Machine.Reasons.{vetted, reason, Explains, phase-vetted, phase-Reasoned}
use esp32s3_ota_api.Update.Outcome.{update-phase}
use esp32s3_ota_api.Update.Listener.{IsListener, dispatches, update-Hears}

module _ (P : Platform) (K : Kconfig) (config : Config (P.World)) where
  open P use {World}

  update-is_vetted :
      (fuel : ℕ) (url : CString) (s : Sys World) (r : Err × Sys World)
      → config.url ≡ some url
      → s.trace ≡ []
      → update P K fuel (some config) s ≡ some r
      → vetted r.1.trace ≡ true
  update-is_vetted fuel url s r given fresh e =
      (phase-vetted r.1.trace (done r.0) (update-phase P K config fuel url s r given fresh e)).1

  -- With a callback, a run of `ota_api_update` fetches no chunk of the image before the callback has
  -- been shown the image's description and has answered ESP_OK: so says the log of the run, and its
  -- events and answers are just those that an application keeps which lists them as it is called.
  pub update-vetted :
      (heard : World → List (Event × Err)) (cb : EventCb World) (fuel : ℕ) (url : CString)
      (s : Sys World) (r : Err × Sys World)
      → IsListener P config heard
      → config.event_cb ≡ some cb
      → config.url ≡ some url
      → s.trace ≡ []
      → heard s.world ≡ []
      → update P K fuel (some config) s ≡ some r
      → (vetted r.1.trace ≡ true) × (heard r.1.world ≡ dispatches r.1.trace)
  update-vetted heard cb fuel url s r listener present given fresh silent e = (
    update-is_vetted fuel url s r given fresh e,
    rw present at (update-Hears P K config heard listener fuel url s r given fresh silent e),
  )

  -- If the callback objects to an event before the outcome, the run returns the very error that the
  -- callback gave; if the cancellation point finds a request to stop, the run returns
  -- ESP_ERR_NOT_FINISHED; and if the image turns out to be incomplete, ESP_ERR_OTA_VALIDATE_FAILED.
  pub update-Explains :
      (fuel : ℕ) (url : CString) (s : Sys World) (r : Err × Sys World)
      → config.url ≡ some url
      → s.trace ≡ []
      → update P K fuel (some config) s ≡ some r
      → Explains (reason r.1.trace) r.0
  update-Explains fuel url s r given fresh e =
      phase-Reasoned r.1.trace (done r.0) (update-phase P K config fuel url s r given fresh e)
