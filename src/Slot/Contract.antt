-- ===== src/Slot/Contract.antt =====
-- The slot as src/ota-api-private.h and include/ota-api.h declare and document it: an interface,
-- which src/ota-api-state.c implements.
mod Tests
use esp32s3_ota_api.Prelude.{
  ◌≡◌, refl, sym, ap, ◌∙◌, inl, inr, Bool, true, false, not, List, [], ◌∷◌, arith, if◌then◌else◌,
  Bool-cases,
}
use esp32s3_ota_api.Err.{Err, esp_ok, invalid_state}
use esp32s3_ota_api.Slot.{
  Slot, claim_update_slot, release_update_slot, abort_requested, abort, is_running,
}
use esp32s3_ota_api.Slot.Spec.{
  Call, claim, release, requested, request, running, Answer, flag, code, nothing, answer, after,
  owned, pending, promised, owned_of_pending, answer-promised,
}

-- For the component's other files.
pub record Owners (S : Type 0) : Type 0 where
  pub claim_update_slot : S → Bool × S
  pub release_update_slot : S → S
  pub abort_requested : S → Bool

-- For the application.
pub record Callers (S : Type 0) : Type 0 where
  pub abort : S → Err × S
  pub is_running : S → Bool

-- "Take ownership of the single update slot: true if this caller may proceed, false if an update
-- already runs"; "hand the update slot back and clear any pending abort request"; "whether
-- ota_api_abort() has been called since the slot was claimed".
pub record IsGuarded (S : Type 0) (O : Owners S) (C : Callers S) : Type 0 where
  pub claim_result : (s : S) → (O.claim_update_slot s).0 ≡ not (C.is_running s)
  pub claim_runs : (s : S) → C.is_running (O.claim_update_slot s).1 ≡ true
  pub claim_afresh :
      (s : S)
      → O.abort_requested (O.claim_update_slot s).1
        ≡ (if C.is_running s then O.abort_requested s else false)
  pub release_runs : (s : S) → C.is_running (O.release_update_slot s) ≡ false
  pub release_clears : (s : S) → O.abort_requested (O.release_update_slot s) ≡ false

-- "ESP_OK: stop requested; ESP_ERR_INVALID_STATE: no update is running", and "ESP_OK means the
-- request was accepted, not that the update has stopped".
pub record IsStoppable (S : Type 0) (O : Owners S) (C : Callers S) : Type 0 where
  pub abort_result : (s : S) → (C.abort s).0 ≡ (if C.is_running s then esp_ok else invalid_state)
  pub abort_runs : (s : S) → C.is_running (C.abort s).1 ≡ C.is_running s
  pub abort_asks :
      (s : S)
      → O.abort_requested (C.abort s).1 ≡ (if C.is_running s then true else O.abort_requested s)

module _ (S : Type 0) (O : Owners S) (C : Callers S) where
  abbrev pub reply : Call → S → Answer × S
  reply claim s = let (b, s') = O.claim_update_slot s in (flag b, s')
  reply release s = (nothing, O.release_update_slot s)
  reply requested s = (flag (O.abort_requested s), s)
  reply request s = let (e, s') = C.abort s in (code e, s')
  reply running s = (flag (C.is_running s), s)

  abbrev pub until : S → List Call → S
  until start [] = start
  until start (c ∷ h) = (reply c (until start h)).1

  module _ (guarded : IsGuarded S O C) (stoppable : IsStoppable S O C) (start : S)
      (idle : C.is_running start ≡ false) (unasked : O.abort_requested start ≡ false) where
    -- The two questions that can be asked follow the history.
    until-owned : (h : List Call) → C.is_running (until start h) ≡ owned h
    until-owned [] = idle
    until-owned (claim ∷ h) = guarded.claim_runs (until start h)
    until-owned (release ∷ h) = guarded.release_runs (until start h)
    until-owned (requested ∷ h) = until-owned h
    until-owned (request ∷ h) = rw (stoppable.abort_runs (until start h)) (until-owned h)
    until-owned (running ∷ h) = until-owned h

    until-pending : (h : List Call) → O.abort_requested (until start h) ≡ pending h
    until-pending [] = unasked
    until-pending (claim ∷ h) =
        rw (guarded.claim_afresh (until start h), until-owned h, until-pending h) refl
    until-pending (release ∷ h) = guarded.release_clears (until start h)
    until-pending (requested ∷ h) = until-pending h
    until-pending (request ∷ h) =
        rw (stoppable.abort_asks (until start h), until-owned h, until-pending h)
          (ground (arith, owned_of_pending h))
    until-pending (running ∷ h) = until-pending h

    reply-promised : (c : Call) (h : List Call) → (reply c (until start h)).0 ≡ promised c h
    reply-promised claim h = rw (guarded.claim_result (until start h), until-owned h) refl
    reply-promised release h = refl
    reply-promised requested h = rw (until-pending h) refl
    reply-promised request h = rw (stoppable.abort_result (until start h), until-owned h) refl
    reply-promised running h = rw (until-owned h) refl

    -- What the headers say determines the answers: whatever keeps to it, and starts with no update
    -- and no request, answers each call after each history of calls as the functions of
    -- src/ota-api-state.c do.
    pub reply-answer :
        (c : Call) (h : List Call) → (reply c (until start h)).0 ≡ (answer c (after h)).0
    reply-answer c h = reply-promised c h ∙ sym (ap (λ r. r.0) (answer-promised c h))

-- src/ota-api-state.c keeps to the headers.
abbrev pub owners : Owners Slot
owners = record {
  claim_update_slot = claim_update_slot;
  release_update_slot = release_update_slot;
  abort_requested = abort_requested;
}

abbrev pub callers : Callers Slot
callers = record { abort = abort; is_running = is_running }

pub slot-IsGuarded : IsGuarded Slot owners callers
unfolding claim_update_slot release_update_slot abort_requested is_running
slot-IsGuarded = record {
  claim_result = λ s. ground arith;
  claim_runs = λ s. ground arith;
  claim_afresh = λ s. ground arith;
  release_runs = λ s. refl;
  release_clears = λ s. refl;
}

pub slot-IsStoppable : IsStoppable Slot owners callers
unfolding abort abort_requested is_running
slot-IsStoppable = record {
  abort_result = λ s. ground arith;
  abort_runs = λ s. ground arith;
  abort_asks = λ s. ground arith;
}
