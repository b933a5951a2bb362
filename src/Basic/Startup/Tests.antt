-- ===== src/Basic/Startup/Tests.antt =====
-- The basic example with its URL from stdin and an interface by name.
use esp32s3_ota_api.Prelude.{◌/◌, ◌≡◌, refl, true, false, none, some, [], ◌∷◌, ◌++◌}
use esp32s3_ota_api.Prelude.CString.{codes, strcmp}
use esp32s3_ota_api.Config.{config_default}
use esp32s3_ota_api.Examples.{platform, kconfig, device}
use esp32s3_ota_api.Task.{Rtos, start_task}
use esp32s3_ota_api.Startup.{
  Boot, connect, done, init_nvs, init_netif, checked, spare_no_power, silently, error_check, call,
  call_own, pure, ◌>>=◌,
}
use esp32s3_ota_api.Startup
use esp32s3_ota_api.Startup.Order.{all_of, needs}
use esp32s3_ota_api.Startup.Rules.{Follows}
use esp32s3_ota_api.Startup.Network.{connected}
use esp32s3_ota_api.Startup.Owns.{Returned}
use esp32s3_ota_api.Startup.Example.{idf, power_on}
use esp32s3_ota_api.Basic.{hash_print, url_from_stdin, fgets}
use esp32s3_ota_api.Basic.Startup.{Options, Outside, Own, app_main}
use esp32s3_ota_api.Basic.Startup.Laws.{Starts, app_main-Starts}

abbrev rtos : Rtos platform
rtos = record { malloc = λ w. (some 64, w); task_create = λ stack copy priority w. (true, w) }

abbrev out : Outside (platform.World)
out = record {
  ota_get_running_partition = λ w. record { address = 65536; size = 1048576 };
  partition_get_sha256 = λ p buffer w. (p.address / 1024 ∷ [], w);
  netif_from_desc = λ name w. some 3;
  configure_stdin_stdout = λ w. w;
  stdin = λ w. (codes "h:/" ++ b'\n' ∷ [], w);
}

abbrev options : Options
options = record {
  bootloader_offset = 0;
  partition_table_offset = 32768;
  connect_wifi = true;
  upgrade_url = codes "FROM_STDIN";
  cert_pem = some (codes "pem");
  skip_common_name_check = false;
  bind_if = some (codes "sta");
  url_from_stdin = true;
}

abbrev fresh_own : Own platform rtos idf out kconfig options
fresh_own = record {
  ota_config = config_default;
  heap = λ a. none;
  shared = (device []).shared;
  trace = [];
}

abbrev booted : Boot (Own platform rtos idf out kconfig options) (platform.World)
booted = power_on fresh_own (device []).world

prints_hashes :
    (app_main platform rtos idf out kconfig options booted).0
    ≡ done (codes "SHA-256 for bootloader:  00" ∷ codes "SHA-256 for current firmware:  40" ∷ [])
unfolding app_main init_nvs init_netif checked spare_no_power silently error_check call call_own
    pure ◌>>=◌ start_task hash_print url_from_stdin fgets strcmp
prints_hashes = refl

url_of_task :
    (app_main platform rtos idf out kconfig options booted).1.own.heap 64
    ≡ some (record config_default {
      url = some (codes "h:/");
      cert_pem = some (codes "pem");
      bind_netif = some 3;
    })
unfolding app_main init_nvs init_netif checked spare_no_power silently error_check call call_own
    pure ◌>>=◌ start_task hash_print url_from_stdin fgets strcmp
url_of_task = refl

app_main-Starts_example :
    Follows
      (needs [])
      (λ _. all_of (Startup.start_task ∷ connected))
      (app_main platform rtos idf out kconfig options booted)
    × Returned
        (λ printed. Starts platform rtos idf out kconfig options booted.own.heap)
        (app_main platform rtos idf out kconfig options booted)
app_main-Starts_example =
    app_main-Starts platform rtos idf out kconfig options booted refl refl (λ w a e. refl)
