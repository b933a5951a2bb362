-- ===== src/Update/Machine/Reasons.antt =====
-- docs/update_state_machine.md: what has to come before a chunk, and what an objection leads to, in
-- every trace that the machine accepts.
use esp32s3_ota_api.Prelude.{
  ◌≡◌, Bool, true, false, ◌&&◌, ◌||◌, Option, none, some, List, [], ◌∷◌, arith, if◌then◌else◌,
}
use esp32s3_ota_api.Err.{Err, not_finished, validate_failed, is_ok}
use esp32s3_ota_api.Config.{Event}
use esp32s3_ota_api.System.{Mark, dispatched, performed, polled, completed}
use esp32s3_ota_api.Update.Machine.{
  Phase, downloading, chunk, going_on, aborting, releasing, settled, done, next, phase,
}
use esp32s3_ota_api.Update.Machine.Laws.{phase-before}

-- The callback saw the image's description, and did not object.
abbrev pub approved : List Mark → Bool
approved [] = false
approved (dispatched (Event.image_desc _) err ∷ t) = is_ok err || approved t
approved (_ ∷ t) = approved t

-- Every chunk is fetched after that.
abbrev pub vetted : List Mark → Bool
vetted [] = true
vetted (performed _ ∷ t) = approved t && vetted t
vetted (_ ∷ t) = vetted t

-- The latest reason to give up a transfer that the transfer itself does not give: an objection of
-- the callback, a request to stop, an image that is not complete.
abbrev pub reason : List Mark → Option Err
reason [] = none
reason (dispatched Event.started err ∷ t) = if is_ok err then reason t else some err
reason (dispatched (Event.image_desc _) err ∷ t) = if is_ok err then reason t else some err
reason (dispatched (Event.progress _) err ∷ t) = if is_ok err then reason t else some err
reason (polled stop ∷ t) = if stop then some not_finished else reason t
reason (completed all ∷ t) = if all then reason t else some validate_failed
reason (_ ∷ t) = reason t

abbrev pub Explains : Option Err → Err → Type 0
Explains none err = Unit
Explains (some e) err = err ≡ e

abbrev Offered : List Mark → Phase → Type 0
Offered t downloading = approved t ≡ true
Offered t chunk = approved t ≡ true
Offered t going_on = approved t ≡ true
Offered t _ = Unit

abbrev Reasoned : List Mark → Phase → Type 0
Reasoned t (aborting err) = Explains (reason t) err
Reasoned t (releasing err) = Explains (reason t) err
Reasoned t (settled err) = Explains (reason t) err
Reasoned t (done err) = Explains (reason t) err
Reasoned t _ = reason t ≡ none

next-Offered :
    (m : Mark) (t : List Mark) (p q : Phase)
    → next p m ≡ some q
    → Offered t p
    → vetted t ≡ true
    → Offered (m ∷ t) q × (vetted (m ∷ t) ≡ true)
unfolding next
next-Offered m t p q e o v = ground arith

next-Reasoned :
    (m : Mark) (t : List Mark) (p q : Phase) → next p m ≡ some q → Reasoned t p → Reasoned (m ∷ t) q
unfolding next
next-Reasoned m t p q e r = ground arith

pub phase-vetted : (t : List Mark) (p : Phase) → phase t ≡ some p → Offered t p × (vetted t ≡ true)
phase-vetted [] p h = ground arith
phase-vetted (m ∷ t) p h =
    let (q, before, step) = phase-before m t p h in
    let (o, v) = phase-vetted t q before in next-Offered m t q p step o v

pub phase-Reasoned : (t : List Mark) (p : Phase) → phase t ≡ some p → Reasoned t p
phase-Reasoned [] p h = ground arith
phase-Reasoned (m ∷ t) p h =
    let (q, before, step) = phase-before m t p h in
    next-Reasoned m t q p step (phase-Reasoned t q before)
