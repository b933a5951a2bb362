-- ===== src/Examples.antt =====
-- A server, an application and a device that the tests of the other modules run against. The server
-- answers from a script, and its clock advances by one tick with each chunk.
use esp32s3_ota_api.Prelude.{ℕ, ◌*◌, ◌+◌, true, false, some, List, [], ◌∷◌}
use esp32s3_ota_api.Prelude.Int.{pos}
use esp32s3_ota_api.Prelude.CString.{CString, codes}
use esp32s3_ota_api.Err.{Err, esp_ok, https_ota_in_progress}
use esp32s3_ota_api.Slot.{initial}
use esp32s3_ota_api.Config.{Kconfig, AppDesc, EventCb, Config, config_default}
use esp32s3_ota_api.Http.{Attach}
use esp32s3_ota_api.System.{Platform, Sys}
use esp32s3_ota_api.System.Sharing.{Foreign, requests, claims}

-- What `esp_https_ota_perform` has still to answer, with what the other tasks do meanwhile; and the
-- number of chunks that came.
pub record Server : Type 0 where
  pub script : List (Err × List Foreign)
  pub fetched : ℕ
  pub asked : List Foreign

abbrev pub more : Err × List Foreign
more = (https_ota_in_progress, [])

-- The same with a request to stop while the chunk is on its way.
abbrev pub more_and_stop : Err × List Foreign
more_and_stop = (https_ota_in_progress, claims ∷ requests ∷ [])

abbrev pub desc : AppDesc
desc = record {
  project_name = codes "ota";
  version = codes "2.0";
  date = codes "Jan 1 2026";
  time = codes "00:00:00";
}

abbrev pub answer : List (Err × List Foreign) → Server → Err × Server
answer [] w = (esp_ok, record w { script = []; asked = [] })
answer ((e, asked) ∷ script) w =
    (e, record { script = script; fetched = w.fetched + 1; asked = asked })

abbrev pub quiet : {A : Type 0} → A → Server → A × Server
quiet a w = (a, record w { asked = [] })

abbrev pub bundle : Attach
bundle conf = (esp_ok, record conf { ca_chain = some (codes "bundle") })

abbrev pub platform : Platform
platform = record {
  World = Server;
  Handle = ℕ;
  net = record { esp_crt_bundle_attach = bundle; impl_name = λ n. codes "en1" };
  meanwhile = λ w. w.asked;
  https_ota_begin = λ c w. quiet (esp_ok, 7) w;
  https_ota_get_img_desc = λ h w. quiet (esp_ok, desc) w;
  https_ota_get_image_size = λ h w. pos 3000;
  https_ota_perform = λ h w. answer w.script w;
  https_ota_is_complete_data_received = λ h w. true;
  https_ota_get_image_len_read = λ h w. pos (w.fetched * 1000);
  https_ota_abort = λ h w. quiet esp_ok w;
  https_ota_finish = λ h w. quiet esp_ok w;
  timer_get_time = λ w. pos (w.fetched * 1000000);
}

abbrev pub kconfig : Kconfig
kconfig = record {
  allow_http = false;
  skip_server_cert_verify = false;
  certificate_bundle = true;
  enable_partial_download = true;
  task_stack_size = 8192;
  task_priority = 5;
  trial_timeout_s = 300;
}

abbrev pub url : CString
url = codes "https://h/f"

-- An application that lets everything pass.
abbrev pub agrees : EventCb Server
agrees event user_ctx w = (esp_ok, record w { asked = [] })

abbrev pub config : Config Server
config = record config_default {
  url = some url;
  event_cb = some agrees;
  progress_interval_ms = 1000;
}

-- An idle device, whose server follows the script.
abbrev pub device : List (Err × List Foreign) → Sys Server
device script = record {
  shared = record { slot = initial; other = false };
  world = record { script = script; fetched = 0; asked = [] };
  trace = [];
}
