-- ===== src/System/Sharing.antt =====
-- The update slot as one update sees it: the flags of src/ota-api-state.c, and what the other tasks
-- do to them. What holds while this update owns the slot.
use esp32s3_ota_api.Prelude.{◌≡◌, Bool, true, false, ◌||◌, List, [], ◌∷◌, arith, if◌then◌else◌}
use esp32s3_ota_api.Slot.{Slot, claim_update_slot, release_update_slot, abort}

-- `other` holds while an update that some other task runs has the slot.
pub record Shared : Type 0 where
  pub slot : Slot
  pub other : Bool

-- What another task, or the callback, can do to the slot through the public API: `ota_api_abort`,
-- and the claim and the release of an `ota_api_update` of its own. It releases only what it claimed.
pub data Foreign : Type 0 where
  requests claims releases : Foreign

unfoldable pub intrude : Foreign → Shared → Shared
unfolding claim_update_slot release_update_slot abort
intrude requests s = record s { slot = (abort s.slot).1 }
intrude claims s =
    let (done, slot) = claim_update_slot s.slot in record { slot = slot; other = s.other || done }
intrude releases s =
    if s.other then record { slot = release_update_slot s.slot; other = false } else s

unfoldable pub interfere : List Foreign → Shared → Shared
interfere [] s = s
interfere (f ∷ fs) s = interfere fs (intrude f s)

-- This update owns the slot.
pub record IsMine (s : Shared) : Type 0 where
  pub running : s.slot.running ≡ true
  pub alone : s.other ≡ false

-- This update does not own the slot: whoever else does has set the flag.
pub record IsCoherent (s : Shared) : Type 0 where
  pub flagged : s.slot.running ≡ s.other

pub interfere-IsMine : (fs : List Foreign) (s : Shared) → IsMine s → IsMine (interfere fs s)
unfolding interfere intrude
interfere-IsMine [] s h = h
interfere-IsMine (f ∷ fs) s h = interfere-IsMine fs (intrude f s) (intruded f)
  where
    intruded : (f : Foreign) → IsMine (intrude f s)
    intruded requests = ground arith
    intruded claims = ground arith
    intruded releases = ground arith

-- While this update owns the slot nobody else takes a request to stop back.
pub interfere-keeps_abort :
    (fs : List Foreign) (s : Shared)
    → IsMine s
    → s.slot.abort_requested ≡ true
    → (interfere fs s).slot.abort_requested ≡ true
unfolding interfere intrude
interfere-keeps_abort [] s h a = a
interfere-keeps_abort (f ∷ fs) s h a =
    interfere-keeps_abort fs (intrude f s) (interfere-IsMine (f ∷ []) s h) (kept f)
  where
    kept : (f : Foreign) → (intrude f s).slot.abort_requested ≡ true
    kept requests = ground arith
    kept claims = ground arith
    kept releases = ground arith

pub interfere-IsCoherent :
    (fs : List Foreign) (s : Shared) → IsCoherent s → IsCoherent (interfere fs s)
unfolding interfere intrude
interfere-IsCoherent [] s h = h
interfere-IsCoherent (f ∷ fs) s h = interfere-IsCoherent fs (intrude f s) (intruded f)
  where
    intruded : (f : Foreign) → IsCoherent (intrude f s)
    intruded requests = ground arith
    intruded claims = ground arith
    intruded releases = ground arith
