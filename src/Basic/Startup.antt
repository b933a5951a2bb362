-- ===== src/Basic/Startup.antt =====
-- examples/basic/main/main.c: the hashes that are printed, and `app_main` up to the loop that waits
-- for ever. Of the log only the lines with the hashes are kept.
pub mod Order
pub mod Settings
pub mod Laws
mod Tests
use esp32s3_ota_api.Prelude.{
  ℕ, Bool, true, false, Option, none, some, List, [], ◌∷◌, ◌++◌, replicate, if◌then◌else◌, is_some,
}
use esp32s3_ota_api.Prelude.CString.{CString, codes, is_zero, strcmp}
use esp32s3_ota_api.Err.{Err, esp_ok, esp_fail}
use esp32s3_ota_api.Config.{Kconfig, Config}
use esp32s3_ota_api.System.{Platform, Sys, Mark}
use esp32s3_ota_api.System.Sharing.{Shared}
use esp32s3_ota_api.Task
use esp32s3_ota_api.Task.{Rtos}
use esp32s3_ota_api.Startup.{
  connect, bind_netif, stdin_url, start_task, Idf, Program, pure, ◌>>=◌, ◌>>◌, call_own,
  error_check, checked, init_nvs, init_netif, spare_no_power,
}
use esp32s3_ota_api.Basic.{hash_print, url_from_stdin}

-- `HASH_LEN`
abbrev pub hash_len : ℕ
hash_len = 32

-- The fields of an application's partition that are set before its hash is asked for.
pub record Partition : Type 0 where
  pub address : ℕ
  pub size : ℕ

-- The values of the build: the offsets of the bootloader and of the partition table, and the
-- CONFIG_EXAMPLE_ values. `cert_pem` is `none` under CONFIG_EXAMPLE_USE_CERT_BUNDLE, and `bind_if`
-- the name of the interface under CONFIG_EXAMPLE_FIRMWARE_UPGRADE_BIND_IF.
pub record Options : Type 0 where
  pub bootloader_offset : ℕ
  pub partition_table_offset : ℕ
  pub connect_wifi : Bool
  pub upgrade_url : CString
  pub cert_pem : Option CString
  pub skip_common_name_check : Bool
  pub bind_if : Option CString
  pub url_from_stdin : Bool

-- What else the program calls: `esp_ota_get_running_partition`, `esp_partition_get_sha256`, which
-- works on the buffer, `get_example_netif_from_desc`, and stdin: its set-up, and the bytes that
-- `fgets` reads from with the world after it.
pub record Outside (W : Type 0) : Type 0 where
  pub ota_get_running_partition : W → Partition
  pub partition_get_sha256 : Partition → List ℕ → W → List ℕ × W
  pub netif_from_desc : CString → W → Option ℕ
  pub configure_stdin_stdout : W → W
  pub stdin : W → List ℕ × W

abbrev pub print_sha256 : List ℕ → CString → CString
print_sha256 image_hash label = label ++ codes " " ++ hash_print image_hash

module _ (P : Platform) (R : Rtos P) (I : Idf (P.World)) (out : Outside (P.World)) (K : Kconfig)
    (options : Options) where
  open P use {World}

  -- The static `ota_config`, and what `ota_api_start_task` works on beside the world.
  abbrev pub Own : Type 0
  Own = record {
    ota_config : Config World;
    heap : ℕ → Option (Config World);
    shared : Shared;
    trace : List Mark;
  }

  -- The two lines.
  pub get_sha256_of_partitions : Program Own World (List CString)
  get_sha256_of_partitions b =
      let bootloader : Partition = record {
        address = options.bootloader_offset;
        size = options.partition_table_offset;
      } in
      let (sha_256, w1) = out.partition_get_sha256 bootloader (replicate hash_len 0) b.world in
      let (sha_256', w2) = out.partition_get_sha256 (out.ota_get_running_partition w1) sha_256 w1 in
      pure
        (print_sha256 sha_256 (codes "SHA-256 for bootloader: ")
          ∷ print_sha256 sha_256' (codes "SHA-256 for current firmware: ")
          ∷ [])
        (record b { world = w2 })

  pub configure : Program Own World (Unit {0})
  configure b =
      let ota_config = record b.own.ota_config {
        url = some options.upgrade_url;
        cert_pem = elim options.cert_pem [ none ↦ b.own.ota_config.cert_pem | some pem ↦ some pem ];
        skip_common_name_check =
            if options.skip_common_name_check
            then true
            else b.own.ota_config.skip_common_name_check;
      } in
      pure tt (record b { own = record b.own { ota_config = ota_config } })

  -- `get_example_netif_from_desc`; NULL counts as a failure here, after which the program aborts.
  pub find_netif : CString → Own → World → Err × Own × World
  find_netif name own w =
      let netif = out.netif_from_desc name w in
      let ota_config = record own.ota_config { bind_netif = netif } in
      (if is_some netif then esp_ok else esp_fail, record own { ota_config = ota_config }, w)

  pub bind : Option CString → Program Own World (Unit {0})
  unfolding find_netif
  bind none = pure tt
  bind (some name) = do err ← call_own bind_netif (find_netif name); error_check err

  -- The URL in `url_buf`. If the input is empty the buffer stays empty, as it was: the program
  -- writes a zero in front of it, which is taken to hit nothing of the model, and goes on.
  pub take_url : Option CString → Own → Own
  take_url none own = record own { ota_config = record own.ota_config { url = some [] } }
  take_url (some url_buf) own = record own {
    ota_config = record own.ota_config { url = some url_buf };
  }

  -- Without "FROM_STDIN" as the configured URL the program aborts.
  pub read_url : Own → World → Err × Own × World
  unfolding take_url
  read_url own w =
      if is_zero (strcmp options.upgrade_url (codes "FROM_STDIN"))
      then (let (input, w') = out.stdin (out.configure_stdin_stdout w) in
          (esp_ok, take_url (url_from_stdin input) own, w'))
      else (esp_fail, own, w)

  -- The check stands for the `abort()` of that branch; the other one never fails.
  pub choose_url : Bool → Program Own World (Unit {0})
  unfolding read_url
  choose_url from_stdin =
      if from_stdin then (do err ← call_own stdin_url read_url; error_check err) else pure tt

  -- `ota_api_start_task(&ota_config)`
  pub start : Own → World → Err × Own × World
  start own w =
      let (err, s) = Task.start_task P R K (some own.ota_config) (record {
        heap = own.heap;
        sys = record { shared = own.shared; world = w; trace = own.trace };
      }) in
      (err, record own { heap = s.heap; shared = s.sys.shared; trace = s.sys.trace }, s.sys.world)

  -- The result is what was printed.
  unfoldable pub app_main : Program Own World (List CString)
  unfolding get_sha256_of_partitions configure bind choose_url start
  app_main = do
    init_nvs I
    printed ← get_sha256_of_partitions
    init_netif I
    checked connect I.example_connect
    spare_no_power I options.connect_wifi
    configure
    bind options.bind_if
    choose_url options.url_from_stdin
    err ← call_own start_task start
    error_check err
    pure printed
