-- ===== src/OnDemand/Semaphore.antt =====
-- The application's memory in examples/on_demand/main/main.c: its variables, and the semaphore.
use esp32s3_ota_api.Prelude.{◌≡◌, Bool, true, false, not, none, some}
use esp32s3_ota_api.OnDemand.{Statics, App}

-- What FreeRTOS documents of a binary semaphore, where `given` tells whether it can be taken, and
-- what holds of variables in memory.
pub record IsBinary {W : Type 0} (A : App W) (given : W → Bool) : Type 0 where
  pub read_back : (v : Statics) (w : W) → A.statics (A.store v w) ≡ v
  pub store_given : (v : Statics) (w : W) → given (A.store v w) ≡ given w
  pub give_given : (w : W) → given (A.semaphore_give w).1 ≡ true
  pub give_result : (w : W) → (A.semaphore_give w).0 ≡ not (given w)
  pub give_apart : (w : W) → A.statics (A.semaphore_give w).1 ≡ A.statics w
  -- A task that takes it waits until it can be taken.
  pub take_empty : (w : W) → given w ≡ false → A.semaphore_take w ≡ none
  pub take_given :
      (w : W)
      → given w ≡ true
      → (w' : W) × (A.semaphore_take w ≡ some w')
        × (given w' ≡ false)
        × (A.statics w' ≡ A.statics w)
  pub shut_down_apart : (w : W) → A.statics (A.shut_down w) ≡ A.statics w
  pub shut_down_given : (w : W) → given (A.shut_down w) ≡ given w
