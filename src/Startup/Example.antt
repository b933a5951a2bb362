-- ===== src/Startup/Example.antt =====
-- ESP-IDF calls of the start-up that leave the world alone, all of which succeed.
use esp32s3_ota_api.Prelude.{true, []}
use esp32s3_ota_api.Err.{esp_ok}
use esp32s3_ota_api.Startup.{Idf, Boot}

abbrev pub idf : {W : Type 0} → Idf W
idf = record {
  nvs_flash_init = λ w. (esp_ok, w);
  nvs_flash_erase = λ w. (esp_ok, w);
  netif_init = λ w. (esp_ok, w);
  event_loop_create_default = λ w. (esp_ok, w);
  example_connect = λ w. (esp_ok, w);
  wifi_set_ps_none = λ w. w;
  console_new_repl_uart = λ w. (esp_ok, w);
  console_cmd_register = λ c w. (esp_ok, w);
  console_register_help_command = λ w. (esp_ok, w);
  console_start_repl = λ w. (esp_ok, w);
  semaphore_create_binary = λ w. (true, w);
  task_create = λ size priority w. (true, w);
}

abbrev pub power_on : {T W : Type 0} → T → W → Boot T W
power_on own w = record { own = own; world = w; calls = [] }
