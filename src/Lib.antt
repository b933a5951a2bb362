-- ===== src/Lib.antt =====
-- A verification library for the ota-api component: firmware updates over HTTPS for ESP-IDF, and the
-- trial run of a freshly booted image.
--
-- The parts, and how they interact. An application fills an `ota_api_config_t` and calls
-- `ota_api_update`, or `ota_api_start_task`, which calls it from a task of its own. An update claims
-- the one update slot, sets up the HTTP client, and drives esp_https_ota chunk by chunk; it reports
-- to the application's callback, whose answer can stop it, and between chunks it looks for a request
-- to stop in the slot. After the reboot the new image is on trial, until the application confirms or
-- rejects it or its countdown runs out. The slot is shared with every task that calls the public
-- API; the trial shares nothing with the update but the partition table.
--
-- Which file models which part. Functions keep the names of the source, less the prefix `ota_api_`.
--   * Prelude, Prelude/Int, Prelude/CString, Prelude/Decimal: shared names, C integers, C strings and
--     strncasecmp, the decimal conversions of printf.
--   * Err: esp_err_t.
--   * Slot: src/ota-api-state.c. The two flags are a record; a critical section is one step. Slot/Spec
--     compares with the history of calls, Slot/Classes takes histories up to what later calls can
--     tell, and Slot/Exclusion interleaves any number of tasks. Slot/Lock has the functions one
--     access to a variable at a time, with the lock, which is taken to let one task in at a time, as
--     documented of portENTER_CRITICAL. Slot/Contract is the slot as src/ota-api-private.h and
--     include/ota-api.h declare and document it, an interface with laws.
--   * Config: include/ota-api.h, the types, with the build options (Kconfig) that the code reads as a
--     record of values, so that each theorem covers every build.
--   * Http: src/ota-api-http.c. Http/Verification: which setups are refused or leave the server
--     unverified.
--   * System: the code outside as parameters, and the state that an update passes along: the slot as
--     it sees it, the world, and a log of marks, which the source does not keep, of the calls made
--     and of their results. System/Sharing: what other tasks do to the slot while such a call is
--     under way.
--   * Report: src/ota-api-report.c.
--   * Update: src/ota-api.c, `ota_api_update` and below. A C function with a loop or several exits is
--     a few functions here, one for each stretch between calls. Update/Machine is written from
--     docs/update_state_machine.md alone; Update/Stages, Update/Refinement and Update/Document relate
--     the two. Update/Listener is an application that lists the events as its callback is called.
--     Update/Result compares with what include/ota-api.h says of the result, and Update/Objections with
--     what it says of the answers of the callback.
--   * Task: src/ota-api.c, `ota_api_start_task` and `ota_task`, over a heap of config copies.
--     Task/Result compares with what include/ota-api.h says of them.
--   * Trial: src/ota-api-trial.c, over a board with timers and a partition table. Trial/Race: the
--     confirmation and the callback of the timer, interleaved call by call. Trial/Result compares with
--     what include/ota-api.h says of the results.
--   * Lifecycle: the two together over the life of a device. Update/Recovery and Trial/Recovery say
--     what each may do to the images (System/Images), and Lifecycle/Recovery puts them in any order
--     with resets; in Lifecycle/Power the power supply fails in a call of an update. Update/OnTrial is
--     an update while an image is on trial; Update/Boot and Lifecycle/Boot follow the boot partition.
--   * Console: examples/advanced/main/main.c, the callback and the console commands, over the models
--     above. Console/ProgressLine is the line of a progress report, over whatever stands for `double`.
--     Console/Lifetime interleaves the command `ota`, one access at a time, with the update task.
--   * OnDemand: examples/on_demand/main/main.c, the command and the worker, over a semaphore.
--     OnDemand/Lifetime interleaves the two, the command one access at a time.
--   * Rollback: examples/rollback/main/main.c, the self-test of `app_main`, and in
--     Rollback/Startup the whole of it.
--   * Basic: examples/basic/main/main.c, the print of a hash and the URL from stdin; Basic/Startup:
--     its `app_main`, up to the task it starts.
--   * Startup: what the `app_main` functions of the examples share, as programs over their own
--     variables, the world and the calls made so far, which the source does not keep. Startup/Order
--     is a table of what each call needs, Startup/Rules and Startup/Network the rules for programs
--     that keep to it, Startup/Owns those for a program's variables. Console/Startup and
--     OnDemand/Startup are two more `app_main`, and so is Rollback/Startup.
--   * Version: the command `version` of two examples, with Console/Version and OnDemand/Version.
--   * Examples, and the Tests of each part: concrete parameters, runs, and uses of the theorems.
--
-- Bounds and fuel. size_t, int and int64_t values that only pass through are unbounded here; the
-- casts to int and to uint64_t of the source are written out. The loop of `download_image` ends when
-- esp_https_ota says so, so it is recursion on fuel, one unit for each chunk, and `none` is running
-- out. Update/Fuel compares amounts of fuel, and Update/Termination finds one that is enough.
--
-- The code outside the repository is a parameter: esp_https_ota, the certificate bundle and the
-- interface names (`Platform`, `Net`), malloc and xTaskCreate (`Rtos`), esp_timer and esp_ota_ops
-- (`Board`, `Flash`), the calls of the start-up (`Idf`, `Outside`), esp_app_desc and the memory of
-- the application (`App`), the bootloader (`Bootloader`), and the application's callback, which
-- acts on the world as it likes. What is assumed of them is a named hypothesis of the theorems that
-- need it: `IsFinite`, `IsDocumented`, `IsClock`, `IsTimely`, `IsFresh`, `IsApart`,
-- `IsUntouched`, `IsMemory`, `IsBinary`, `IsWriter`, `IsTame`, `IsBootable`, `IsSelector`,
-- `IsTorn` and `IsListener`. The callback and the other tasks reach the slot through the public API
-- only, and release it only if they claimed it: that is what `Foreign` lists. Of `double` (`Double`)
-- nothing is assumed.
--
-- Not modelled: log lines, apart from those of the HTTP event handler and of the hashes; real time,
-- so that the clock stands still between two calls of the code outside; and the preemption of a task
-- between two such calls. Slot/Lock looks inside the functions of the slot, and the Lifetime of Console
-- and of OnDemand inside what the command `ota` does once its tests are through: there each store and
-- each call is a step, where the tests at the start of the command are one step,
-- `ota_api_start_task` with its malloc and xTaskCreate is one, and so is each event of the callback.
-- In the examples most of what is printed is left out, and so is the Python tooling around them.
pub mod Prelude
pub mod Err
pub mod Slot
pub mod Config
pub mod Http
pub mod System
pub mod Report
pub mod Update
pub mod Task
pub mod Trial
pub mod Examples
pub mod Console
pub mod Basic
pub mod Rollback
pub mod OnDemand
pub mod Startup
pub mod Version
pub mod Lifecycle
