-- ===== src/Task/Result.antt =====
-- include/ota-api.h on the result of `ota_api_start_task`, and on what the task then does.
use esp32s3_ota_api.Prelude.{
  ℕ, ◌≡◌, refl, inl, inr, Bool, false, Option, none, some, [], if◌then◌else◌, Bool-cases,
  Option-cases,
}
use esp32s3_ota_api.Prelude.CString.{CString}
use esp32s3_ota_api.Err.{Err, esp_ok, invalid_arg, no_mem, is_ok}
use esp32s3_ota_api.Config.{Kconfig, Config}
use esp32s3_ota_api.System.{Platform, Sys}
use esp32s3_ota_api.Update.{update}
use esp32s3_ota_api.Task.{
  Rtos, State, put, stack_size, priority, restarted, deleted, spawn, allocate, with_url, start_task,
  finish, ota_task,
}
use esp32s3_ota_api.Task.Laws.{IsFresh, put-put, ota_task-copy}

module _ (P : Platform) (R : Rtos P) (K : Kconfig) where
  open P use {World}

  -- There is room for the config's copy, and for the task, with its stack.
  abbrev pub has_room : Config World → State P → Bool
  has_room config s =
      let (copy, w) = R.malloc s.sys.world in
      elim copy [
        | none ↦ false
        | some a ↦ (R.task_create (stack_size P R K config) a (priority P R K config) w).0
      ]

  -- "Spawns a FreeRTOS task that calls ota_api_update(); on success it restarts, on failure it logs
  -- the error and exits." "The struct is copied". The copy is gone when the task is.
  abbrev pub IsSpawned : Config World → State P → State P → Type 0
  IsSpawned config s s' =
      (copy : ℕ) × (s.heap copy ≡ none)
      × (s'.heap ≡ put P s.heap copy (some config))
      × ((fuel : ℕ) (err : Err) (sys : Sys World)
          → update P K fuel (some config) s'.sys ≡ some (err, sys)
          → ota_task P K fuel copy s'
            ≡ some (if is_ok err then restarted else deleted, record { heap = s.heap; sys = sys }))

  -- The update has not begun.
  abbrev pub IsIdle : State P → State P → Type 0
  IsIdle s s' = (s'.sys.shared ≡ s.sys.shared) × (s'.sys.trace ≡ s.sys.trace)

  -- "ESP_OK: task created; ESP_ERR_INVALID_ARG: NULL config or url; ESP_ERR_NO_MEM: task or
  -- config-copy allocation failed"
  abbrev pub IsSpawnResult : Option CString → Config World → State P → Err × State P → Type 0
  IsSpawnResult none config s r = r ≡ (invalid_arg, s)
  IsSpawnResult (some url) config s r =
      IsIdle s r.1
      × (if has_room config s
          then (r.0 ≡ esp_ok) × IsSpawned config s r.1
          else (r.0 ≡ no_mem) × (r.1.heap ≡ s.heap))

  abbrev pub IsStartResult : Option (Config World) → State P → Err × State P → Type 0
  IsStartResult none s r = r ≡ (invalid_arg, s)
  IsStartResult (some config) s r = IsSpawnResult config.url config s r

  ota_task-ends :
      (config : Config World) (copy : ℕ) (s : State P) (world : World)
      → s.heap copy ≡ none
      → (fuel : ℕ) (err : Err) (sys : Sys World)
      → update P K fuel (some config) (record s.sys { world = world }) ≡ some (err, sys)
      → ota_task P K fuel copy
          (record { heap = put P s.heap copy (some config); sys = record s.sys { world = world } })
        ≡ some (if is_ok err then restarted else deleted, record { heap = s.heap; sys = sys })
  unfolding finish
  ota_task-ends config copy s world free fuel err sys e =
      rw (ota_task-copy P R K config fuel copy s.heap (record s.sys { world = world }) free, e) refl

  allocate-IsSpawnResult :
      (config : Config World) (s : State P)
      → IsFresh P R K s
      → IsSpawnResult (some []) config s (allocate P R K config s)
  unfolding allocate spawn
  allocate-IsSpawnResult config s fresh =
      let x = R.malloc s.sys.world in
      elim (Option-cases x.0) [
        | inl full ↦ rw (has_room, full, allocate) ((refl, refl), (refl, refl))
        | inr (a, given) ↦
            let y = R.task_create (stack_size P R K config) a (priority P R K config) x.1 in
            let free = fresh a given in
            elim (Bool-cases y.0) [
              | inl created ↦
                  rw (has_room, given, allocate)
                    (rw (created, spawn)
                      ((refl, refl), (refl, (a, free, refl, ota_task-ends config a s y.1 free))))
              | inr failed ↦
                  rw (has_room, given, allocate)
                    (rw (failed, spawn)
                      ((refl, refl), (refl, put-put P R K s.heap a (some config) free)))
            ]
      ]

  with_url-IsSpawnResult :
      (url : Option CString) (config : Config World) (s : State P)
      → IsFresh P R K s
      → IsSpawnResult url config s (with_url P R K url config s)
  unfolding with_url
  with_url-IsSpawnResult none config s fresh = refl
  with_url-IsSpawnResult (some url) config s fresh = allocate-IsSpawnResult config s fresh

  -- Whatever the argument, `ota_api_start_task` answers as documented, and starts no update itself.
  -- For NULL or without a URL it answers ESP_ERR_INVALID_ARG and does nothing. If there is no room
  -- for the config's copy or for the task it answers ESP_ERR_NO_MEM, and nothing stays on the heap.
  -- Else it answers ESP_OK, the heap holds a copy of the config more, and if the update that the
  -- task runs with that config returns, the task restarts the device or deletes itself, according
  -- to the result, and the heap is as it was before the call. It is taken that `malloc` gives out a
  -- block that is not in use.
  pub start_task-IsStartResult :
      (config : Option (Config World)) (s : State P)
      → IsFresh P R K s
      → IsStartResult config s (start_task P R K config s)
  unfolding start_task
  start_task-IsStartResult none s fresh = refl
  start_task-IsStartResult (some config) s fresh = with_url-IsSpawnResult config.url config s fresh
