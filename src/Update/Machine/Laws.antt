-- ===== src/Update/Machine/Laws.antt =====
-- docs/update_state_machine.md: what every trace that the machine accepts has in common.
use esp32s3_ota_api.Prelude.{
  ℕ, ◌+◌, ◌≡◌, inl, inr, Bool, true, false, ◌&&◌, some, List, [], ◌∷◌, arith, if◌then◌else◌,
  Option-cases,
}
use esp32s3_ota_api.Err.{is_ok}
use esp32s3_ota_api.Config.{Event}
use esp32s3_ota_api.System.{
  Mark, begun, dispatched, performed, unreported, completed, aborted, finished,
}
use esp32s3_ota_api.Update.Machine.{
  Phase, idle, configuring, connecting, verifying, whole, committing, aborting, releasing, settled,
  done, next, phase,
}

-- Handles that `esp_https_ota_begin` gave out, and those that were given up.
abbrev pub opened : List Mark → ℕ
opened [] = 0
opened (begun err ∷ t) = (if is_ok err then 1 else 0) + opened t
opened (_ ∷ t) = opened t

abbrev pub closed : List Mark → ℕ
closed [] = 0
closed (aborted ∷ t) = 1 + closed t
closed (finished _ ∷ t) = 1 + closed t
closed (_ ∷ t) = closed t

-- Images made bootable.
abbrev pub commits : List Mark → ℕ
commits [] = 0
commits (finished err ∷ t) = (if is_ok err then 1 else 0) + commits t
commits (_ ∷ t) = commits t

-- The handle that is held in a state.
abbrev pub held : Phase → ℕ
held idle = 0
held configuring = 0
held connecting = 0
held (releasing _) = 0
held (settled _) = 0
held (done _) = 0
held _ = 1

-- Whether the image has been made bootable.
abbrev committed : Phase → ℕ
committed (releasing err) = if is_ok err then 1 else 0
committed (settled err) = if is_ok err then 1 else 0
committed (done err) = if is_ok err then 1 else 0
committed _ = 0

-- The last chunk came without an error.
abbrev ended : List Mark → Bool
ended (performed err ∷ t) = is_ok err
ended _ = false

-- After it the image was found complete.
abbrev whole_image : List Mark → Bool
whole_image (completed all ∷ t) = all && ended t
whole_image _ = false

-- After that the last report met no objection.
abbrev acceptable : List Mark → Bool
acceptable (unreported ∷ t) = whole_image t
acceptable (dispatched (Event.progress _) err ∷ t) = is_ok err && whole_image t
acceptable _ = false

-- Every attempt to commit comes straight after such a report.
abbrev pub guarded : List Mark → Bool
guarded [] = true
guarded (finished _ ∷ t) = acceptable t && guarded t
guarded (_ ∷ t) = guarded t

abbrev Received : List Mark → Phase → Type 0
Received t verifying = ended t ≡ true
Received t whole = whole_image t ≡ true
Received t committing = acceptable t ≡ true
Received t _ = Unit

-- An update is aborted for a reason.
abbrev IsSound : Phase → Type 0
IsSound (aborting err) = is_ok err ≡ false
IsSound _ = Unit

pub record Accounts (t : List Mark) (p : Phase) : Type 0 where
  sound : IsSound p
  pub handles : opened t ≡ closed t + held p
  pub bootable : commits t ≡ committed p

next-Accounts :
    (m : Mark) (t : List Mark) (p q : Phase) → next p m ≡ some q → Accounts t p → Accounts (m ∷ t) q
unfolding next
next-Accounts m t p q e a = ground arith

next-guarded :
    (m : Mark) (t : List Mark) (p q : Phase)
    → next p m ≡ some q
    → Received t p
    → guarded t ≡ true
    → Received (m ∷ t) q × (guarded (m ∷ t) ≡ true)
unfolding next
next-guarded m t p q e r g = ground arith

pub phase-before :
    (m : Mark) (t : List Mark) (p : Phase)
    → phase (m ∷ t) ≡ some p
    → (q : Phase) × (phase t ≡ some q) × (next q m ≡ some p)
phase-before m t p h = elim (Option-cases (phase t)) [
  | inl none_before ↦ absurd (ground arith)
  | inr (q, before) ↦ (q, before, rw before at h)
]

pub phase-Accounts : (t : List Mark) (p : Phase) → phase t ≡ some p → Accounts t p
phase-Accounts [] p h = ground arith
phase-Accounts (m ∷ t) p h =
    let (q, before, step) = phase-before m t p h in
    next-Accounts m t q p step (phase-Accounts t q before)

phase-Received : (t : List Mark) (p : Phase) → phase t ≡ some p → Received t p × (guarded t ≡ true)
phase-Received [] p h = ground arith
phase-Received (m ∷ t) p h =
    let (q, before, step) = phase-before m t p h in
    let (r, g) = phase-Received t q before in next-guarded m t q p step r g

pub phase-guarded : (t : List Mark) (p : Phase) → phase t ≡ some p → guarded t ≡ true
phase-guarded t p h = (phase-Received t p h).1
