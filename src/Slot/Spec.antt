-- ===== src/Slot/Spec.antt =====
-- src/ota-api-state.c against the history of the calls made.
use esp32s3_ota_api.Prelude.{
  ◌≡◌, refl, ap, inl, inr, Bool, true, false, not, List, [], ◌∷◌, arith, if◌then◌else◌, Bool-cases,
}
use esp32s3_ota_api.Err.{Err, esp_ok, invalid_state}
use esp32s3_ota_api.Slot.{
  Slot, initial, claim_update_slot, release_update_slot, abort_requested, abort, is_running,
}

-- The five functions, and what they answer.
pub data Call : Type 0 where
  claim release requested request running : Call

pub data Answer : Type 0 where
  flag : Bool → Answer
  code : Err → Answer
  nothing : Answer

unfoldable pub answer : Call → Slot → Answer × Slot
unfolding claim_update_slot release_update_slot abort_requested abort is_running
answer claim s = let (b, s') = claim_update_slot s in (flag b, s')
answer release s = (nothing, release_update_slot s)
answer requested s = (flag (abort_requested s), s)
answer request s = let (e, s') = abort s in (code e, s')
answer running s = (flag (is_running s), s)

-- The flags after a history of calls by any tasks, the latest first.
unfoldable pub after : List Call → Slot
unfolding answer
after [] = initial
after (c ∷ h) = (answer c (after h)).1

-- The slot is owned once a claim stands after the last release.
abbrev pub owned : List Call → Bool
owned [] = false
owned (claim ∷ h) = true
owned (release ∷ h) = false
owned (_ ∷ h) = owned h

-- A request counts if the slot was owned, until the slot is released or claimed afresh.
abbrev pub pending : List Call → Bool
pending [] = false
pending (claim ∷ h) = if owned h then pending h else false
pending (release ∷ h) = false
pending (request ∷ h) = owned h
pending (_ ∷ h) = pending h

abbrev pub promised : Call → List Call → Answer
promised claim h = flag (not (owned h))
promised release h = nothing
promised requested h = flag (pending h)
promised request h = code (if owned h then esp_ok else invalid_state)
promised running h = flag (owned h)

pub owned_of_pending : (h : List Call) → pending h ≡ true → owned h ≡ true
owned_of_pending [] p = p
owned_of_pending (claim ∷ h) p = refl
owned_of_pending (release ∷ h) p = p
owned_of_pending (requested ∷ h) p = owned_of_pending h p
owned_of_pending (request ∷ h) p = p
owned_of_pending (running ∷ h) p = owned_of_pending h p

abbrev pub view : List Call → Slot
view h = record { running = owned h; abort_requested = pending h }

answer-view : (c : Call) (h : List Call) → answer c (view h) ≡ (promised c h, view (c ∷ h))
unfolding answer
answer-view claim h = ground (arith, owned_of_pending h)
answer-view release h = refl
answer-view requested h = refl
answer-view request h = elim (Bool-cases (owned h)) [
  | inl o ↦ rw o
  | inr o ↦ rw o (ground (arith, owned_of_pending h))
]
answer-view running h = refl

pub after-view : (h : List Call) → after h ≡ view h
unfolding after
after-view [] = refl
after-view (c ∷ h) = rw (after, after-view h) (ap (λ (r : Answer × Slot). r.1) (answer-view c h))

-- Whatever calls were made before, in whatever order, each function answers what the history
-- promises: a claim succeeds exactly when nobody owns the slot, a request to stop is accepted
-- exactly when somebody does, and a request is seen exactly when it was made under the present
-- owner. The flags that the call leaves are those of the history with the call added.
pub answer-promised :
    (c : Call) (h : List Call)
    → answer c (after h)
      ≡ (promised c h, record { running = owned (c ∷ h); abort_requested = pending (c ∷ h) })
answer-promised c h = rw (after-view h) (answer-view c h)
