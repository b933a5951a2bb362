-- ===== src/OnDemand/Startup.antt =====
-- examples/on_demand/main/main.c: the commands, and `app_main`, which starts the worker and then the
-- console. What is logged is left out.
pub mod Laws
use esp32s3_ota_api.Prelude.{ℕ, Bool, true, false, none, some, List, [], ◌∷◌, if◌then◌else◌}
use esp32s3_ota_api.Prelude.CString.{codes}
use esp32s3_ota_api.Err.{Err, esp_ok, no_mem}
use esp32s3_ota_api.Startup.{
  Command, ota, version, connect, semaphore, worker, new_repl, register_help, start_repl, Idf,
  Program, ◌>>=◌, ◌>>◌, or_no_mem, call_own, error_check, checked, init_nvs, init_netif,
  spare_no_power, register_all,
}

-- `OTA_WORKER_STACK_SIZE` and `OTA_WORKER_PRIORITY`
abbrev pub worker_stack_size : ℕ
worker_stack_size = 8192

abbrev pub worker_priority : ℕ
worker_priority = 5

abbrev pub ota_cmd : Command
ota_cmd = record {
  command = codes "ota";
  help = codes "Download and install a firmware image, using the configured URL when none is given";
  hint = some (codes "[url]");
  func = ota;
}

abbrev pub version_cmd : Command
version_cmd = record {
  command = codes "version";
  help = codes "Print the running firmware version and partition";
  hint = none;
  func = version;
}

-- The program's own variable is whether `s_ota_request` is a semaphore and not NULL.
module _ {W : Type 0} (I : Idf W) where
  pub register_commands : Program Bool W (Unit {0})
  register_commands = do
    register_all I (ota_cmd ∷ [])
    register_all I (version_cmd ∷ [])
    checked register_help I.console_register_help_command

  -- `s_ota_request = xSemaphoreCreateBinary()`, and its value for the check.
  pub create_request : Bool → W → Err × Bool × W
  create_request _ w =
      let (created, w') = I.semaphore_create_binary w in
      (if created then esp_ok else no_mem, created, w')

  pub create_worker : W → Err × W
  create_worker = or_no_mem (I.task_create worker_stack_size worker_priority)

  -- `connect_wifi` is CONFIG_EXAMPLE_CONNECT_WIFI.
  unfoldable pub app_main : Bool → Program Bool W (Unit {0})
  unfolding register_commands create_request create_worker
  app_main connect_wifi = do
    init_nvs I
    init_netif I
    checked connect I.example_connect
    spare_no_power I connect_wifi
    err ← call_own semaphore create_request
    error_check err
    checked worker create_worker
    checked new_repl I.console_new_repl_uart
    register_commands
    checked start_repl I.console_start_repl
