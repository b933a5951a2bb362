-- ===== src/Update/Machine/Blame.antt =====
-- include/ota-api.h, what it documents `ota_api_update` to return, against
-- docs/update_state_machine.md: in every trace that the machine accepts, at most one thing goes
-- wrong, and that is the result.
use esp32s3_ota_api.Prelude.{◌≡◌, false, some, List, [], ◌∷◌, ◌++◌, arith, if◌then◌else◌}
use esp32s3_ota_api.Err.{
  Err, esp_ok, invalid_state, not_finished, validate_failed, is_ok, is_in_progress,
}
use esp32s3_ota_api.Config.{Event}
use esp32s3_ota_api.System.{
  Mark, claimed, configured, begun, dispatched, described, performed, polled, completed, finished,
}
use esp32s3_ota_api.Update.Machine.{Phase, aborting, releasing, settled, done, next, phase}
use esp32s3_ota_api.Update.Machine.Laws.{phase-before}

-- "another update is already running", the server or the scheme is not acceptable, an event before
-- the outcome is refused by the callback, "stopped by ota_api_abort()", the image is incomplete,
-- "an error from esp_https_ota".
pub data Cause : Type 0 where
  busy stopped incomplete : Cause
  unacceptable refused esp_https_ota : Err → Cause

abbrev pub error_of : Cause → Err
error_of busy = invalid_state
error_of stopped = not_finished
error_of incomplete = validate_failed
error_of (unacceptable err) = err
error_of (refused err) = err
error_of (esp_https_ota err) = err

abbrev unless_ok : Err → Cause → List Cause
unless_ok err cause = if is_ok err then [] else cause ∷ []

-- What is wrong with a step.
abbrev pub wrong : Mark → List Cause
wrong (claimed got) = if got then [] else busy ∷ []
wrong (configured err) = unless_ok err (unacceptable err)
wrong (begun err) = unless_ok err (esp_https_ota err)
wrong (described err) = unless_ok err (esp_https_ota err)
wrong (performed err) = if is_in_progress err then [] else unless_ok err (esp_https_ota err)
wrong (finished err) = unless_ok err (esp_https_ota err)
wrong (dispatched Event.started err) = unless_ok err (refused err)
wrong (dispatched (Event.image_desc _) err) = unless_ok err (refused err)
wrong (dispatched (Event.progress _) err) = unless_ok err (refused err)
wrong (polled stop) = if stop then stopped ∷ [] else []
wrong (completed all) = if all then [] else incomplete ∷ []
wrong _ = []

abbrev pub causes : List Mark → List Cause
causes [] = []
causes (m ∷ t) = wrong m ++ causes t

-- A result that is due to the causes: ESP_OK without any, and the error of the only one.
abbrev pub IsDue : List Cause → Err → Type 0
IsDue [] err = err ≡ esp_ok
IsDue (cause ∷ []) err = (err ≡ error_of cause) × (is_ok err ≡ false)
IsDue (_ ∷ _ ∷ _) err = ⊥

abbrev Blames : List Cause → Phase → Type 0
Blames causes (aborting err) = IsDue causes err × (is_ok err ≡ false)
Blames causes (releasing err) = IsDue causes err
Blames causes (settled err) = IsDue causes err
Blames causes (done err) = IsDue causes err
Blames causes _ = causes ≡ []

next-Blames :
    (m : Mark) (t : List Cause) (p q : Phase)
    → next p m ≡ some q
    → Blames t p
    → Blames (wrong m ++ t) q
unfolding next
next-Blames m t p q e b = ground arith

pub phase-Blames : (t : List Mark) (p : Phase) → phase t ≡ some p → Blames (causes t) p
phase-Blames [] p h = ground arith
phase-Blames (m ∷ t) p h =
    let (q, before, step) = phase-before m t p h in
    next-Blames m (causes t) q p step (phase-Blames t q before)
