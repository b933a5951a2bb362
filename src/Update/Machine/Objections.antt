-- ===== src/Update/Machine/Objections.antt =====
-- include/ota-api.h, the contract of `ota_api_event_cb_t`, against docs/update_state_machine.md:
-- what an objection of the callback leads to in every trace that the machine accepts.
use mathlib.Core.Option
use esp32s3_ota_api.Prelude.{
  ℕ, ◌+◌, ◌≡◌, false, Option, none, some, List, [], ◌∷◌, arith, if◌then◌else◌,
}
use esp32s3_ota_api.Err.{Err, is_ok}
use esp32s3_ota_api.Config.{Event}
use esp32s3_ota_api.System.{Mark, dispatched, aborted, finished, released}
use esp32s3_ota_api.Update.Machine.{Phase, aborting, releasing, settled, done, next, phase}
use esp32s3_ota_api.Update.Machine.Laws.{phase-before}

-- "Any other value stops the update"; "ignored at OTA_API_EVENT_SUCCEEDED and OTA_API_EVENT_FAILED".
abbrev pub objects : Mark → Option Err
objects (dispatched Event.started err) = if is_ok err then none else some err
objects (dispatched (Event.image_desc _) err) = if is_ok err then none else some err
objects (dispatched (Event.progress _) err) = if is_ok err then none else some err
objects _ = none

-- The latest objection, and the marks that came after it, the latest first.
abbrev pub objection : List Mark → Option (Err × List Mark)
objection [] = none
objection (m ∷ t) = elim (objects m) [
  | some err ↦ some (err, [])
  | none ↦ Option.map (λ (err, later). (err, m ∷ later)) (objection t)
]

-- Attempts to make an image bootable.
abbrev pub attempts : List Mark → ℕ
attempts [] = 0
attempts (finished _ ∷ t) = 1 + attempts t
attempts (_ ∷ t) = attempts t

-- With an objection on record, that is the error, no attempt was made, and `later` is all that came
-- after it.
abbrev Stopped : List Mark → ℕ → Option (Err × List Mark) → Err → Type 0
Stopped later n none err = Unit
Stopped later n (some (e, l)) err = (err ≡ e) × (is_ok err ≡ false) × (n ≡ 0) × (l ≡ later)

abbrev pub Heeds : List Mark → Phase → Type 0
Heeds t (aborting err) = Stopped [] (attempts t) (objection t) err × (attempts t ≡ 0)
Heeds t (releasing err) = Stopped (aborted ∷ []) (attempts t) (objection t) err
Heeds t (settled err) = Stopped (released ∷ aborted ∷ []) (attempts t) (objection t) err
Heeds t (done err) = Unit
Heeds t _ = (objection t ≡ none) × (attempts t ≡ 0)

next-Heeds :
    (m : Mark) (t : List Mark) (p q : Phase) → next p m ≡ some q → Heeds t p → Heeds (m ∷ t) q
unfolding next
next-Heeds m t p q e h = ground arith

pub phase-Heeds : (t : List Mark) (p : Phase) → phase t ≡ some p → Heeds t p
phase-Heeds [] p h = ground arith
phase-Heeds (m ∷ t) p h =
    let (q, before, step) = phase-before m t p h in next-Heeds m t q p step (phase-Heeds t q before)
