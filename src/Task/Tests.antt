-- ===== src/Task/Tests.antt =====
-- `ota_api_start_task` on an empty heap.
use esp32s3_ota_api.Prelude.{refl, true, none, some, []}
use esp32s3_ota_api.Examples.{platform, kconfig, config, device}
use esp32s3_ota_api.Task.{Rtos, State, start_task}
use esp32s3_ota_api.Task.Laws.{Hands, start_task-heap}
use esp32s3_ota_api.Task.Result.{IsStartResult, start_task-IsStartResult}

abbrev rtos : Rtos platform
rtos = record { malloc = λ w. (some 64, w); task_create = λ stack copy priority w. (true, w) }

abbrev idle : State platform
idle = record { heap = λ a. none; sys = device [] }

start_task-heap_run :
    Hands platform rtos kconfig config idle (start_task platform rtos kconfig (some config) idle)
start_task-heap_run = start_task-heap platform rtos kconfig config idle (λ a e. refl)

start_task-IsStartResult_example :
    IsStartResult platform rtos kconfig
      (some config)
      idle
      (start_task platform rtos kconfig (some config) idle)
start_task-IsStartResult_example =
    start_task-IsStartResult platform rtos kconfig (some config) idle (λ a e. refl)
