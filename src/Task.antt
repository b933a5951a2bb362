-- ===== src/Task.antt =====
-- src/ota-api.c, `ota_api_start_task` and `ota_task`: an update in a task of its own.
pub mod Laws
pub mod Result
pub mod Apart
mod Tests
use esp32s3_ota_api.Prelude.{ℕ, Bool, true, false, Option, none, some, ◌==◌, if◌then◌else◌}
use esp32s3_ota_api.Prelude.CString.{CString}
use esp32s3_ota_api.Err.{Err, esp_ok, invalid_arg, no_mem, is_ok}
use esp32s3_ota_api.Config.{Kconfig, Config}
use esp32s3_ota_api.System.{Platform, Sys}
use esp32s3_ota_api.Update.{update}

-- `malloc`, which gives an address or NULL, and `xTaskCreate`, which gives whether it succeeded:
-- it takes the stack size, the argument and the priority.
pub record Rtos (P : Platform) : Type 0 where
  pub malloc : P.World → Option ℕ × P.World
  pub task_create : ℕ → ℕ → ℕ → P.World → Bool × P.World

-- How the task ends: `esp_restart`, `vTaskDelete`, or a read through a pointer to no config.
pub data End : Type 0 where
  restarted deleted fault : End

module _ (P : Platform) where
  open P use {World}

  -- The copies of a config on the heap, by address, beside the state of the update.
  abbrev pub State : Type 0
  State = record { heap : ℕ → Option (Config World); sys : Sys World }

  abbrev pub put :
      (ℕ → Option (Config World)) → ℕ → Option (Config World) → ℕ → Option (Config World)
  put heap a v b = if a == b then v else heap b

  module _ (R : Rtos P) (K : Kconfig) where
    -- A size or priority of 0 means that of the build.
    abbrev pub stack_size : Config World → ℕ
    stack_size config =
        if config.task_stack_size == 0 then K.task_stack_size else config.task_stack_size

    abbrev pub priority : Config World → ℕ
    priority config = if config.task_priority == 0 then K.task_priority else config.task_priority

    -- From the copy on.
    pub spawn : Config World → ℕ → State → Err × State
    spawn config copy s =
        let heap = put s.heap copy (some config) in
        let (created, w) = R.task_create (stack_size config) copy (priority config) s.sys.world in
        let sys : Sys World = record s.sys { world = w } in
        if created
        then (esp_ok, record { heap = heap; sys = sys })
        else (no_mem, record { heap = put heap copy none; sys = sys })

    pub allocate : Config World → State → Err × State
    allocate config s =
        let (copy, w) = R.malloc s.sys.world in
        let sys : Sys World = record s.sys { world = w } in
        elim copy [
          | none ↦ (no_mem, record { heap = s.heap; sys = sys })
          | some a ↦ spawn config a (record { heap = s.heap; sys = sys })
        ]

    -- From the test of `config->url` on.
    pub with_url : Option CString → Config World → State → Err × State
    with_url none config s = (invalid_arg, s)
    with_url (some _) config s = allocate config s

    -- `ota_api_start_task`; the pointer `config` may be NULL.
    unfoldable pub start_task : Option (Config World) → State → Err × State
    unfolding with_url allocate spawn
    start_task none s = (invalid_arg, s)
    start_task (some config) s = with_url config.url config s

  unfoldable pub finish :
      Option (Err × Sys World) → (ℕ → Option (Config World)) → Option (End × State)
  finish none heap = none
  finish (some (err, sys)) heap =
      some (if is_ok err then restarted else deleted, record { heap = heap; sys = sys })

  -- `ota_task`: the config is copied off the heap, its block freed, and the update run on fuel.
  unfoldable pub ota_task : Kconfig → ℕ → ℕ → State → Option (End × State)
  unfolding finish
  ota_task K fuel arg s = elim (s.heap arg) [
    | none ↦ some (fault, s)
    | some config ↦ finish (update P K fuel (some config) s.sys) (put s.heap arg none)
  ]
