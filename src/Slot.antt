-- ===== src/Slot.antt =====
-- src/ota-api-state.c: the single update slot. Each function runs inside one critical section of
-- `s_state_lock`, so it is one atomic step from the two flags to the two flags and its result.
pub mod Spec
pub mod Exclusion
pub mod Classes
pub mod Lock
pub mod Contract
mod Tests
use esp32s3_ota_api.Prelude.{Bool, true, false, if◌then◌else◌}
use esp32s3_ota_api.Err.{Err, esp_ok, invalid_state}

-- `s_running` and `s_abort_requested`
pub record Slot : Type 0 where
  pub running : Bool
  pub abort_requested : Bool

-- Statics start zeroed.
abbrev pub initial : Slot
initial = record { running = false; abort_requested = false }

unfoldable pub claim_update_slot : Slot → Bool × Slot
claim_update_slot s =
    if s.running then (false, s) else (true, record { running = true; abort_requested = false })

unfoldable pub release_update_slot : Slot → Slot
release_update_slot s = record { running = false; abort_requested = false }

unfoldable pub abort_requested : Slot → Bool
abort_requested s = s.abort_requested

unfoldable pub abort : Slot → Err × Slot
abort s = if s.running then (esp_ok, record s { abort_requested = true }) else (invalid_state, s)

unfoldable pub is_running : Slot → Bool
is_running s = s.running
