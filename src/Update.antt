-- ===== src/Update.antt =====
-- src/ota-api.c: one update, from the claim of the slot to its outcome.
pub mod Machine
pub mod Claim
pub mod Loop
pub mod Kept
pub mod Keeps
pub mod Stages
pub mod Refinement
pub mod Objections
pub mod Whole
pub mod Listener
pub mod Document
pub mod Boot
pub mod Outcome
pub mod Causes
pub mod Result
pub mod Termination
pub mod Fuel
pub mod Abort
pub mod Memory
pub mod OnTrial
pub mod Recovery
mod Tests
use esp32s3_ota_api.Prelude.{ℕ, zero, suc, Bool, true, false, Option, none, some, if◌then◌else◌}
use esp32s3_ota_api.Prelude.Int.{ℤ, pos, to_int32}
use esp32s3_ota_api.Prelude.CString.{CString}
use esp32s3_ota_api.Err.{
  Err, invalid_arg, invalid_state, not_finished, validate_failed, is_ok, is_in_progress,
}
use esp32s3_ota_api.Slot.{claim_update_slot, release_update_slot, abort_requested}
use esp32s3_ota_api.Config.{Kconfig, Config, Event}
use esp32s3_ota_api.Http.{HttpConfig, zeroed, build_http_config}
use esp32s3_ota_api.System.{
  Platform, OtaConfig, Sys, mark, external, claimed, configured, begun, described, performed,
  polled, completed, aborted, finished, released,
}
use esp32s3_ota_api.Report.{dispatch_event, report_progress}

-- How the loop of `download_image` is left: by `break` at the error that `esp_https_ota_perform`
-- gave, or by `return`. The number is `last_report_us`.
pub data Exit : Type 0 where
  broke : Err → ℤ → Exit
  returned : Err → Exit

-- How one round of it ends.
pub data Turn : Type 0 where
  again : ℤ → Turn
  leave : Exit → Turn

pub turn_of : Err → ℤ → Turn
turn_of err last = if is_ok err then again last else leave (returned err)

-- The slot's calls, as this update makes them.
module _ {W : Type 0} where
  pub claim : Sys W → Bool × Sys W
  claim s =
      let (done, slot) = claim_update_slot s.shared.slot in
      (done, mark (claimed done) (record s { shared = record s.shared { slot = slot } }))

  pub release : Sys W → Sys W
  release s =
      mark released
        (record s { shared = record s.shared { slot = release_update_slot s.shared.slot } })

  pub poll : Sys W → Bool × Sys W
  poll s = let stop = abort_requested s.shared.slot in (stop, mark (polled stop) s)

module _ (P : Platform) where
  open P use {
    World, Handle, net, https_ota_begin, https_ota_get_img_desc, https_ota_get_image_size,
    https_ota_perform, https_ota_is_complete_data_received, https_ota_abort, https_ota_finish,
  }

  unfoldable pub check_incoming_image : Handle → Config World → Sys World → Err × Sys World
  check_incoming_image handle config s =
      let ((err, new_app), s') =
        external P (https_ota_get_img_desc handle) (λ r. described r.0) s in
      if is_ok err then dispatch_event P config (Event.image_desc new_app) s' else (err, s')

  -- After the cancellation point: `return ESP_ERR_NOT_FINISHED`, or the report, whose error is
  -- returned.
  pub attend : Handle → Config World → ℤ → ℤ → Bool → Sys World → Turn × Sys World
  attend handle config total_bytes last_report_us true s = (leave (returned not_finished), s)
  attend handle config total_bytes last_report_us false s =
      let ((err, last'), s') = report_progress P handle config total_bytes last_report_us false s in
      (turn_of err last', s')

  -- One round of `while (1)`.
  pub round : Handle → Config World → ℤ → ℤ → Sys World → Turn × Sys World
  round handle config total_bytes last_report_us s =
      let (err, s1) = external P (https_ota_perform handle) performed s in
      if is_in_progress err
      then (let (stop, s2) = poll s1 in attend handle config total_bytes last_report_us stop s2)
      else (leave (broke err last_report_us), s1)

  -- What follows a round: the next one, or the end.
  pub proceed :
      (ℤ → Sys World → Option (Exit × Sys World)) → Turn → Sys World → Option (Exit × Sys World)
  proceed more (again last') s = more last' s
  proceed more (leave exit) s = some (exit, s)

  -- The loop, on fuel: `none` means that the fuel ran out.
  pub rounds : ℕ → Handle → Config World → ℤ → ℤ → Sys World → Option (Exit × Sys World)
  rounds zero handle config total_bytes last_report_us s = none
  rounds (suc fuel) handle config total_bytes last_report_us s =
      let (turn, s') = round handle config total_bytes last_report_us s in
      proceed (rounds fuel handle config total_bytes) turn s'

  -- After `esp_https_ota_is_complete_data_received`: the truncated response, or the forced report.
  pub verify : Handle → Config World → ℤ → ℤ → Bool → Sys World → Err × Sys World
  verify handle config total_bytes last_report_us true s =
      let ((err, _), s') = report_progress P handle config total_bytes last_report_us true s in
      (err, s')
  verify handle config total_bytes last_report_us false s = (validate_failed, s)

  -- From the end of the loop on.
  pub conclude : Handle → Config World → ℤ → Exit → Sys World → Err × Sys World
  conclude handle config total_bytes (returned err) s = (err, s)
  conclude handle config total_bytes (broke err last') s =
      if is_ok err
      then (let complete = https_ota_is_complete_data_received handle s.world in
          verify handle config total_bytes last' complete (mark (completed complete) s))
      else (err, s)

  unfoldable pub download_image : ℕ → Handle → Config World → Sys World → Option (Err × Sys World)
  download_image fuel handle config s =
      let total_bytes = https_ota_get_image_size handle s.world in
      elim (rounds fuel handle config total_bytes (pos 0) s) [
        | none ↦ none
        | some (exit, s') ↦ some (conclude handle config total_bytes exit s')
      ]

  -- STARTED, and the check of the incoming image unless the callback refused already.
  pub prepare : Handle → Config World → Sys World → Err × Sys World
  prepare handle config s =
      let (err, s') = dispatch_event P config Event.started s in
      if is_ok err then check_incoming_image handle config s' else (err, s')

  -- The last part of `run_update`: the handle is given up, by commitment or by abortion.
  pub settle : Handle → Err → Sys World → Err × Sys World
  settle handle err s =
      if is_ok err
      then external P (https_ota_finish handle) finished s
      else (err, (external P (https_ota_abort handle) (λ _. aborted) s).1)

  module _ (K : Kconfig) where
    -- The `(int)` cast of `max_http_request_size` keeps the low 32 bits.
    pub ota_config : HttpConfig → Config World → OtaConfig
    ota_config http config =
        if K.enable_partial_download
        then record {
          http_config = http;
          partial_http_download = config.partial_download;
          max_http_request_size = to_int32 config.max_http_request_size;
        }
        else record {
          http_config = http;
          partial_http_download = false;
          max_http_request_size = pos 0;
        }

    -- `run_update` from the moment that a handle is held.
    pub session : ℕ → Handle → Config World → Sys World → Option (Err × Sys World)
    session fuel handle config s =
        let (err, s') = prepare handle config s in
        if is_ok err
        then elim (download_image fuel handle config s') [
          | none ↦ none
          | some (err', s'') ↦ some (settle handle err' s'')
        ]
        else some (settle handle err s')

    unfoldable pub run_update : ℕ → CString → Config World → Sys World → Option (Err × Sys World)
    run_update fuel url config s =
        let (err, http) = build_http_config net K url config zeroed in
        let s1 = mark (configured err) s in
        if is_ok err
        then (let ((err', handle), s2) =
              external P (https_ota_begin (ota_config http config)) (λ r. begun r.0) s1 in
            if is_ok err' then session fuel handle config s2 else some (err', s2))
        else some (err, s1)

    -- What `ota_api_update` does once the slot is released.
    pub notify : Config World → Err → Sys World → Err × Sys World
    notify config err s =
        if is_ok err
        then (err, (dispatch_event P config Event.succeeded s).1)
        else (err, (dispatch_event P config (Event.failed err) s).1)

    -- From the return of `run_update` on.
    pub announce : Config World → Option (Err × Sys World) → Option (Err × Sys World)
    announce config none = none
    announce config (some (err, s)) = some (notify config err (release s))

    -- `ota_api_update` once `config->url` is known not to be NULL.
    pub claimed_update : ℕ → CString → Config World → Sys World → Option (Err × Sys World)
    claimed_update fuel url config s =
        let (done, s1) = claim s in
        if done then announce config (run_update fuel url config s1) else some (invalid_state, s1)

    -- `ota_api_update`; the pointer `config` may be NULL.
    unfoldable pub update : ℕ → Option (Config World) → Sys World → Option (Err × Sys World)
    update fuel none s = some (invalid_arg, s)
    update fuel (some config) s = elim config.url [
      | none ↦ some (invalid_arg, s)
      | some url ↦ claimed_update fuel url config s
    ]
