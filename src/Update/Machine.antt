-- ===== src/Update/Machine.antt =====
-- docs/update_state_machine.md: the states of an update, and the marks that lead from one to the
-- next. It is written from that document, and knows nothing of src/ota-api.c.
pub mod Laws
pub mod Reasons
pub mod Blame
pub mod Objections
use esp32s3_ota_api.Prelude.{Bool, true, false, Option, none, some, List, [], ◌∷◌, if◌then◌else◌}
use esp32s3_ota_api.Err.{
  Err, invalid_arg, invalid_state, not_finished, validate_failed, is_ok, is_in_progress,
}
use esp32s3_ota_api.Config.{Event}
use esp32s3_ota_api.System.{
  Mark, claimed, configured, begun, dispatched, described, performed, polled, unreported, completed,
  aborted, finished, released,
}

-- The document's states. INSPECTING, DOWNLOADING and VERIFYING are cut where a call inside them
-- returns: `offering` before the callback sees the descriptor, `chunk` and `going_on` before and
-- after the cancellation point, `whole` before the forced report. `done` is
-- IDLE again, with the result of the update; a log of marks is about one update.
pub data Phase : Type 0 where
  idle configuring connecting notifying inspecting offering : Phase
  downloading chunk going_on verifying whole committing : Phase
  aborting releasing settled done : Err → Phase

abbrev pub unless : Err → Phase → Phase
unless err p = if is_ok err then p else aborting err

unfoldable pub next : Phase → Mark → Option Phase
next idle (claimed true) = some configuring
next idle (claimed false) = some (done invalid_state)
next configuring (configured err) = some (if is_ok err then connecting else releasing err)
next connecting (begun err) = some (if is_ok err then notifying else releasing err)
next notifying (dispatched Event.started err) = some (unless err inspecting)
next inspecting (described err) = some (unless err offering)
next offering (dispatched (Event.image_desc _) err) = some (unless err downloading)
next downloading (performed err) = some (if is_in_progress err then chunk else unless err verifying)
next chunk (polled stop) = some (if stop then aborting not_finished else going_on)
next going_on unreported = some downloading
next going_on (dispatched (Event.progress _) err) = some (unless err downloading)
next verifying (completed all) = some (if all then whole else aborting validate_failed)
next whole unreported = some committing
next whole (dispatched (Event.progress _) err) = some (unless err committing)
next committing (finished err) = some (releasing err)
next (aborting err) aborted = some (releasing err)
next (releasing err) released = some (settled err)
next (settled err) (dispatched Event.succeeded _) = if is_ok err then some (done err) else none
next (settled err) (dispatched (Event.failed _) _) = if is_ok err then none else some (done err)
next _ _ = none

-- The state after a trace, the latest mark first; `none` if the machine refuses a mark of it.
abbrev pub phase : List Mark → Option Phase
phase [] = some idle
phase (m ∷ t) = elim (phase t) [ none ↦ none | some p ↦ next p m ]

-- The document's first edges. With a config and a URL an update goes through the states above;
-- without, it is over at once, with ESP_ERR_INVALID_ARG and before any mark.
abbrev pub run : Bool → List Mark → Option Phase
run true t = phase t
run false [] = some (done invalid_arg)
run false (_ ∷ _) = none
