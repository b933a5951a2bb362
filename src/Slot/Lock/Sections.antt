-- ===== src/Slot/Lock/Sections.antt =====
-- src/ota-api-state.c: what the accesses of a critical section come to.
use esp32s3_ota_api.Prelude.{◌≡◌, refl, arith}
use esp32s3_ota_api.Slot.{
  Slot, claim_update_slot, release_update_slot, abort_requested, abort, is_running,
}
use esp32s3_ota_api.Slot.Spec.{Call, claim, release, requested, request, running, Answer, answer}
use esp32s3_ota_api.Slot.Lock.{
  Section, load_running, load_abort, store_running, store_abort, exit, section_of, access,
}

-- A section run to its end.
unfoldable pub finish : Section → Slot → Answer × Slot
finish (load_running k) s = finish (k s.running) s
finish (load_abort k) s = finish (k s.abort_requested) s
finish (store_running b k) s = finish k (record s { running = b })
finish (store_abort b k) s = finish k (record s { abort_requested = b })
finish (exit a) s = (a, s)

-- Run to its end, each section is the function of the model.
pub finish-section_of : (c : Call) (s : Slot) → finish (section_of c) s ≡ answer c s
unfolding finish section_of answer claim_update_slot release_update_slot abort_requested abort
    is_running
finish-section_of claim s = ground arith
finish-section_of release s = refl
finish-section_of requested s = refl
finish-section_of request s = ground arith
finish-section_of running s = refl

pub finish-access :
    (k : Section) (s : Slot) → let (k', s') = access k s in finish k' s' ≡ finish k s
unfolding finish
finish-access (load_running k) s = refl
finish-access (load_abort k) s = refl
finish-access (store_running b k) s = refl
finish-access (store_abort b k) s = refl
finish-access (exit a) s = refl
