-- ===== src/Update/Tests.antt =====
-- Runs of `ota_api_update` against the scripted server.
use mathlib.Core.Path.{subst}
use mathlib.Core.Option.{some-injective}
use esp32s3_ota_api.Prelude.{
  ℕ, ◌≡◌, ◌≤◌, ◌<◌, List, length, refl, true, false, some, [], ◌∷◌, arith, inl,
}
use esp32s3_ota_api.Prelude.Int.{pos}
use esp32s3_ota_api.Err.{
  Err, esp_ok, https_ota_in_progress, not_finished, invalid_state, is_in_progress,
}
use esp32s3_ota_api.Slot.{claim_update_slot, release_update_slot, abort, abort_requested}
use esp32s3_ota_api.Config.{Event, EventCb}
use esp32s3_ota_api.Http.{is_plain_http, build_http_config}
use esp32s3_ota_api.System.{
  Sys, external, claimed, configured, begun, dispatched, described, performed, polled, completed,
  aborted, finished, released,
}
use esp32s3_ota_api.System.Sharing.{Foreign, interfere, intrude}
use esp32s3_ota_api.Report.{progress_of, dispatch_event, report_progress}
use esp32s3_ota_api.Examples.{
  Server, platform, kconfig, config, device, desc, more, more_and_stop, url, answer,
}
use esp32s3_ota_api.Update.{
  returned, turn_of, claim, release, poll, check_incoming_image, attend, round, proceed, rounds,
  verify, conclude, download_image, prepare, settle, ota_config, session, run_update, notify,
  announce, claimed_update, update,
}
use esp32s3_ota_api.Update.Machine.{done, phase}
use esp32s3_ota_api.Update.Machine.Laws.{opened, closed, commits, guarded}
use esp32s3_ota_api.Update.Claim.{update-busy}
use esp32s3_ota_api.Update.Refinement.{Settled, update-Settled}
use esp32s3_ota_api.Update.Outcome.{
  update-phase, update-commits, update-handles, Freed, update-Freed,
}
use esp32s3_ota_api.Update.Termination.{Returns, IsFinite, update-Returns}
use esp32s3_ota_api.Update.Causes.{update-Explains}
use esp32s3_ota_api.Update.Result.{IsDocumentedResult, update-IsDocumentedResult}
use esp32s3_ota_api.Update.Fuel.{update-more_fuel}
use esp32s3_ota_api.Update.Abort.{rounds-stops}

abbrev percent : ℕ → ℕ → Event
percent n k = Event.progress (record { bytes_read = n; total_bytes = 3000; percent = pos k })

-- The device once the image is committed.
abbrev updated : Err × Sys Server
updated = (
  esp_ok,
  record {
    shared = record { slot = record { running = false; abort_requested = false }; other = false };
    world = record { script = []; fetched = 2; asked = [] };
    trace =
        dispatched Event.succeeded esp_ok
        ∷ released
        ∷ finished esp_ok
        ∷ dispatched (percent 2000 66) esp_ok
        ∷ completed true
        ∷ performed esp_ok
        ∷ dispatched (percent 2000 66) esp_ok
        ∷ polled false
        ∷ performed https_ota_in_progress
        ∷ dispatched (percent 1000 33) esp_ok
        ∷ polled false
        ∷ performed https_ota_in_progress
        ∷ dispatched (Event.image_desc desc) esp_ok
        ∷ described esp_ok
        ∷ dispatched Event.started esp_ok
        ∷ begun esp_ok
        ∷ configured esp_ok
        ∷ claimed true
        ∷ [];
  },
)

-- The device once another task has stopped the update during the second chunk.
abbrev stopped : Err × Sys Server
stopped = (
  not_finished,
  record {
    shared = record { slot = record { running = false; abort_requested = false }; other = false };
    world = record { script = more ∷ []; fetched = 2; asked = [] };
    trace =
        dispatched (Event.failed not_finished) esp_ok
        ∷ released
        ∷ aborted
        ∷ polled true
        ∷ performed https_ota_in_progress
        ∷ dispatched (percent 1000 33) esp_ok
        ∷ polled false
        ∷ performed https_ota_in_progress
        ∷ dispatched (Event.image_desc desc) esp_ok
        ∷ described esp_ok
        ∷ dispatched Event.started esp_ok
        ∷ begun esp_ok
        ∷ configured esp_ok
        ∷ claimed true
        ∷ [];
  },
)

abbrev whole : Sys Server
whole = device (more ∷ more ∷ [])

abbrev cut_short : Sys Server
cut_short = device (more ∷ more_and_stop ∷ more ∷ [])

update-whole : update platform kconfig 9 (some config) whole ≡ some updated
unfolding turn_of claim release poll check_incoming_image attend round proceed rounds verify
    conclude download_image prepare settle ota_config session run_update notify announce
    claimed_update update claim_update_slot release_update_slot abort abort_requested external
    interfere intrude progress_of dispatch_event report_progress build_http_config is_plain_http
update-whole = refl

update-cut_short : update platform kconfig 9 (some config) cut_short ≡ some stopped
unfolding turn_of claim release poll check_incoming_image attend round proceed rounds verify
    conclude download_image prepare settle ota_config session run_update notify announce
    claimed_update update claim_update_slot release_update_slot abort abort_requested external
    interfere intrude progress_of dispatch_event report_progress build_http_config is_plain_http
update-cut_short = refl

update-commits_example : (commits updated.1.trace ≡ 1) × (guarded updated.1.trace ≡ true)
update-commits_example =
    update-commits platform kconfig config 9 url whole updated refl refl update-whole

update-phase_run : phase stopped.1.trace ≡ some (done not_finished)
update-phase_run =
    update-phase platform kconfig config 9 url cut_short stopped refl refl update-cut_short

update-handles_example : opened stopped.1.trace ≡ closed stopped.1.trace
update-handles_example =
    update-handles platform kconfig config 9 url cut_short stopped refl refl update-cut_short

update-Freed_example : Freed platform kconfig config stopped
update-Freed_example =
    update-Freed platform kconfig config 9 url cut_short stopped refl refl
      (record { flagged = refl }) update-cut_short

update-Settled_run : Settled stopped
update-Settled_run =
    update-Settled platform kconfig config 9 url cut_short stopped refl refl refl update-cut_short

update-more_fuel_run : update platform kconfig 12 (some config) whole ≡ some updated
update-more_fuel_run =
    update-more_fuel platform config kconfig 9 12 whole updated (omega arith) update-whole

-- The device in the middle of a download, with a request to stop on record.
abbrev asked : Sys Server
asked = record {
  shared = record { slot = record { running = true; abort_requested = true }; other = false };
  world = record { script = more ∷ more ∷ []; fetched = 0; asked = [] };
  trace = [];
}

abbrev heeded : Sys Server
heeded = record {
  shared = record { slot = record { running = true; abort_requested = true }; other = false };
  world = record { script = more ∷ []; fetched = 1; asked = [] };
  trace = polled true ∷ performed https_ota_in_progress ∷ [];
}

rounds-stops_example :
    rounds platform 4 7 config (pos 3000) (pos 0) asked ≡ some (returned not_finished, heeded)
unfolding external interfere
rounds-stops_example =
    rounds-stops platform 7 config 3 (pos 3000) (pos 0) asked
      (record { running = refl; alone = refl }) (inl refl)

update-busy_run :
    update platform kconfig 9 (some config) asked
    ≡ some (invalid_state, record asked { trace = claimed false ∷ [] })
update-busy_run = update-busy platform kconfig config 9 url asked refl refl

abbrev left : Server → ℕ
left w = length w.script

answer-left :
    (script : List (Err × List Foreign)) (w : Server)
    → is_in_progress (answer script w).0 ≡ true
    → left (answer script w).1 < length script
answer-left [] w h = cc
answer-left (e ∷ script) w h = omega arith

finite : IsFinite platform config left
finite = record {
  perform_falls = λ handle w h. answer-left w.script w h;
  callback_keeps = λ event_cb e event w.
      subst (λ (cb : EventCb Server). left (cb event 0 w).1 ≤ left w) (some-injective _ _ e)
        (omega arith);
}

update-Returns_example : (fuel : ℕ) × Returns (update platform kconfig fuel (some config) whole)
update-Returns_example = update-Returns platform config left finite kconfig whole

explained : not_finished ≡ not_finished
explained =
    update-Explains platform kconfig config 9 url cut_short stopped refl refl update-cut_short

update-IsDocumentedResult_example :
    IsDocumentedResult platform kconfig (some config) cut_short stopped
update-IsDocumentedResult_example =
    update-IsDocumentedResult platform kconfig 9 (some config) cut_short stopped refl
      update-cut_short
