-- ===== src/Update/Result.antt =====
-- include/ota-api.h on the result of `ota_api_update`, for every argument.
use mathlib.Core.Path.{subst}
use mathlib.Core.Option.{some-injective}
use esp32s3_ota_api.Prelude.{
  ℕ, ◌≡◌, refl, sym, ap, ◌∙◌, inl, inr, Bool, false, Option, none, some, [], Option-cases,
  Bool-cases, if◌then◌else◌,
}
use esp32s3_ota_api.Prelude.CString.{CString}
use esp32s3_ota_api.Err.{Err, invalid_arg, invalid_state}
use esp32s3_ota_api.Config.{Kconfig, Config}
use esp32s3_ota_api.Http.Verification.{accepted, built, build_outcome}
use esp32s3_ota_api.System.{Platform, Sys, mark, configured}
use esp32s3_ota_api.Update.{run_update, release, notify, announce, update}
use esp32s3_ota_api.Update.Claim.{taken, update-free, update-busy}
use esp32s3_ota_api.Update.Machine.{done}
use esp32s3_ota_api.Update.Machine.Blame.{causes, IsDue, phase-Blames}
use esp32s3_ota_api.Update.Refinement.{notify-result}
use esp32s3_ota_api.Update.Outcome.{update-phase}

module _ (P : Platform) (K : Kconfig) where
  open P use {World}

  -- "another update is already running"; "cert_pem NULL with neither the certificate bundle nor
  -- CONFIG_ESP_TLS_SKIP_SERVER_CERT_VERIFY enabled; or http:// URL with
  -- CONFIG_ESP_HTTPS_OTA_ALLOW_HTTP disabled".
  abbrev pub IsTurnedAway : CString → Config World → Bool → Err → Type 0
  IsTurnedAway url config is_running err =
      if is_running
      then err ≡ invalid_state
      else if accepted P.net K url config
      then Unit
      else err ≡ invalid_arg

  module _ (fuel : ℕ) (url : CString) (config : Config World) where
    run-unaccepted :
        (s : Sys World)
        → accepted P.net K url config ≡ false
        → run_update P K fuel url config s ≡ some (invalid_arg, mark (configured invalid_arg) s)
    unfolding run_update
    run-unaccepted s bad =
        let refused : (built P.net K url config).0 ≡ invalid_arg =
          rw bad at (build_outcome P.net K url config) in
        rw refused refl

    update-IsTurnedAway :
        (s : Sys World) (r : Err × Sys World)
        → config.url ≡ some url
        → update P K fuel (some config) s ≡ some r
        → IsTurnedAway url config s.shared.slot.running r.0
    unfolding announce
    update-IsTurnedAway s r given e = elim (Bool-cases s.shared.slot.running) [
      | inl busy ↦ rw busy (
          ap (λ x. x.0)
            (sym (some-injective _ _ (sym (update-busy P K config fuel url s given busy) ∙ e))))
      | inr free ↦ elim (Bool-cases (accepted P.net K url config)) [
        | inl fine ↦ rw (free, fine) tt
        | inr bad ↦
            let s' = release (mark (configured invalid_arg) (taken s)) in
            let ends : some (notify P K config invalid_arg s') ≡ some r =
              rw (run-unaccepted (taken s) bad) at
                (sym (update-free P K config fuel url s given free) ∙ e) in
            rw (free, bad)
              (ap (λ x. x.0) (sym (some-injective _ _ ends))
                ∙ notify-result P K config invalid_arg s')
      ]
    ]

  -- "NULL config/url", and then nothing was done; or what went wrong.
  abbrev pub IsDocumentedResult : Option (Config World) → Sys World → Err × Sys World → Type 0
  IsDocumentedResult none s r = (r.0 ≡ invalid_arg) × (r.1.trace ≡ [])
  IsDocumentedResult (some config) s r = elim config.url [
    | none ↦ (r.0 ≡ invalid_arg) × (r.1.trace ≡ [])
    | some url ↦ IsDue (causes r.1.trace) r.0 × IsTurnedAway url config s.shared.slot.running r.0
  ]

  -- Whatever the argument, every run ends as documented. For NULL, or without a URL, it returns
  -- ESP_ERR_INVALID_ARG and does nothing. Otherwise no step of it went wrong and it returns ESP_OK,
  -- or just one did and it returns what that stands for: ESP_ERR_INVALID_STATE if another update is
  -- running, ESP_ERR_NOT_FINISHED for a request to stop, ESP_ERR_OTA_VALIDATE_FAILED for an
  -- incomplete image, and the error itself of the HTTP setup, of esp_https_ota, or of the callback
  -- at an event before the outcome. While another update runs that is the first; and else, for a
  -- server that could not be verified or a scheme that is not allowed, it is ESP_ERR_INVALID_ARG.
  pub update-IsDocumentedResult :
      (fuel : ℕ) (config : Option (Config World)) (s : Sys World) (r : Err × Sys World)
      → s.trace ≡ []
      → update P K fuel config s ≡ some r
      → IsDocumentedResult config s r
  unfolding update
  update-IsDocumentedResult fuel none s r fresh e =
      subst (IsDocumentedResult none s) (some-injective _ _ e) (refl, fresh)
  update-IsDocumentedResult fuel (some config) s r fresh e = elim (Option-cases config.url) [
    | inl missing ↦
        let refused : some (invalid_arg, s) ≡ some r = rw missing at e in
        rw missing (
          subst (λ x. (x.0 ≡ invalid_arg) × (x.1.trace ≡ [])) (some-injective _ _ refused)
            (refl, fresh))
    | inr (url, given) ↦ rw given (
      phase-Blames r.1.trace (done r.0) (update-phase P K config fuel url s r given fresh e),
      update-IsTurnedAway fuel url config s r given e,
    )
  ]
