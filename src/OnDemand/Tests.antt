-- ===== src/OnDemand/Tests.antt =====
-- The on-demand device, with a server that refuses every connection.
use esp32s3_ota_api.Prelude.{
  ℕ, ◌≡◌, refl, Bool, true, false, ◌||◌, ◌&&◌, not, none, some, List, [], ◌∷◌, arith, if◌then◌else◌,
}
use esp32s3_ota_api.Prelude.Int.{pos}
use esp32s3_ota_api.Prelude.CString.{CString, codes}
use esp32s3_ota_api.Err.{esp_ok, esp_fail}
use esp32s3_ota_api.Slot.{initial}
use esp32s3_ota_api.System.{Platform, Sys}
use esp32s3_ota_api.Examples.{kconfig, desc, bundle}
use esp32s3_ota_api.Update.Termination.{IsFinite}
use esp32s3_ota_api.Update.Memory.{IsUntouched}
use esp32s3_ota_api.OnDemand.{
  Statics, App, writes_url, raises_flag, gives, act, requested, pending, asked_url, cmd_ota,
  ota_config,
}
use esp32s3_ota_api.OnDemand.Semaphore.{IsBinary}
use esp32s3_ota_api.OnDemand.Command.{Requested, cmd_ota-Requested}
use esp32s3_ota_api.OnDemand.Worker.{own, Serves, cmd_ota-Serves}
use esp32s3_ota_api.Startup.{
  start_repl, done, init_nvs, init_netif, checked, spare_no_power, silently, register_all,
  error_check, call, ◌>>=◌,
}
use esp32s3_ota_api.Startup.Order.{all_of, needs}
use esp32s3_ota_api.Startup.Rules.{Follows}
use esp32s3_ota_api.Startup.Example.{idf, power_on}
use esp32s3_ota_api.Version.{hex_digits}
use esp32s3_ota_api.OnDemand.Startup.{app_main}
use esp32s3_ota_api.OnDemand.Startup.Laws.{console, app_main-console_last}
use esp32s3_ota_api.OnDemand.Lifetime.{
  waiting, is_serving, is_giving, types_ota, acts, takes, Reach, starts, later, ota_running-given,
  Step-ota_url,
}

record Memory : Type 0 where
  variables : Statics
  semaphore : Bool

abbrev quiet : {A : Type 0} → A → Memory → A × Memory
quiet a w = (a, w)

abbrev device : Platform
device = record {
  World = Memory;
  Handle = ℕ;
  net = record { esp_crt_bundle_attach = bundle; impl_name = λ n. codes "en1" };
  meanwhile = λ w. [];
  https_ota_begin = λ c w. quiet (esp_fail, 7) w;
  https_ota_get_img_desc = λ h w. quiet (esp_ok, desc) w;
  https_ota_get_image_size = λ h w. pos 3000;
  https_ota_perform = λ h w. quiet esp_ok w;
  https_ota_is_complete_data_received = λ h w. true;
  https_ota_get_image_len_read = λ h w. pos 3000;
  https_ota_abort = λ h w. quiet esp_ok w;
  https_ota_finish = λ h w. quiet esp_ok w;
  timer_get_time = λ w. pos 0;
}

abbrev app : App Memory
app = record {
  statics = λ w. w.variables;
  store = λ v w. record w { variables = v };
  semaphore_give = λ w. (not w.semaphore, record w { semaphore = true });
  semaphore_take = λ w. if w.semaphore then some (record w { semaphore = false }) else none;
  shut_down = λ w. w;
}

abbrev given : Memory → Bool
given w = w.semaphore

binary : IsBinary app given
binary = record {
  read_back = λ v w. refl;
  store_given = λ v w. refl;
  give_given = λ w. refl;
  give_result = λ w. refl;
  give_apart = λ w. refl;
  take_empty = λ w e. rw e refl;
  take_given = λ w e. (record w { semaphore = false }, ground arith, refl, refl);
  shut_down_apart = λ w. refl;
  shut_down_given = λ w. refl;
}

abbrev left : Memory → ℕ
left w = 0

finite : (url : CString) → IsFinite device (ota_config device app false kconfig url) left
finite url = record { perform_falls = λ handle w h. cc; callback_keeps = λ event_cb e event w. cc }

untouched :
    (url : CString)
    → IsUntouched device
        (ota_config device app false kconfig url)
        (own device app given binary false kconfig)
untouched url = record {
  by_begin = λ c w. refl;
  by_img_desc = λ h w. refl;
  by_perform = λ h w. refl;
  by_abort = λ h w. refl;
  by_finish = λ h w. refl;
  by_callback = λ cb present event during w. cc;
}

abbrev default_url : CString
default_url = codes "https://d"

abbrev idle : Sys Memory
idle = record {
  shared = record { slot = initial; other = false };
  world = record { variables = record { ota_url = []; ota_running = false }; semaphore = false };
  trace = [];
}

abbrev typed : List CString
typed = codes "https://h" ∷ []

abbrev ordered : Sys Memory
ordered = record idle {
  world = record {
    variables = record { ota_url = codes "https://h"; ota_running = true };
    semaphore = true;
  };
}

cmd_ota-ordered : cmd_ota device app default_url typed idle.world ≡ (0, ordered.world)
unfolding cmd_ota
cmd_ota-ordered = refl

cmd_ota-Requested_run :
    Requested device app given binary default_url
      (codes "https://h")
      (cmd_ota device app default_url typed idle.world)
cmd_ota-Requested_run = cmd_ota-Requested device app given binary default_url typed idle.world

accepted : (cmd_ota device app default_url typed idle.world).0 ≡ 0
unfolding cmd_ota
accepted = refl

cmd_ota-Serves_example :
    Serves device app given binary false kconfig
      (codes "https://h")
      (record idle { world = (cmd_ota device app default_url typed idle.world).1 })
cmd_ota-Serves_example =
    cmd_ota-Serves device app given binary false kconfig left finite untouched default_url typed
      idle refl accepted

reach_ordered : Reach device app given binary false kconfig default_url ordered [] waiting
unfolding asked_url pending requested act
reach_ordered =
    later
      (later
        (later (later (starts idle refl refl) (types_ota typed waiting))
          (acts (writes_url (codes "https://h")) (raises_flag ∷ gives ∷ []) waiting))
        (acts raises_flag (gives ∷ []) waiting))
      (acts gives [] waiting)

ota_running-given_example :
    (ordered.world.variables.ota_running
      ≡ (given ordered.world || is_serving waiting || is_giving []))
    × ((given ordered.world && is_serving waiting) ≡ false)
    × ((is_giving [] && (given ordered.world || is_serving waiting)) ≡ false)
ota_running-given_example =
    ota_running-given device app given binary false kconfig default_url reach_ordered

Step-ota_url_example :
    (record ordered.world { semaphore = false }).variables.ota_url ≡ ordered.world.variables.ota_url
Step-ota_url_example =
    Step-ota_url device app given binary false kconfig default_url reach_ordered refl
      (takes [] _ refl)

started : (app_main idf true (power_on false idle.world)).0 ≡ done tt
unfolding app_main init_nvs init_netif checked spare_no_power silently register_all error_check call
    ◌>>=◌
started = refl

app_main-console_last_run :
    Follows
      (needs console)
      (λ _. all_of (start_repl ∷ console))
      (app_main idf true (power_on false idle.world))
app_main-console_last_run = app_main-console_last idf true (power_on false idle.world) refl

digits_of_address : hex_digits 8 1114112 ≡ codes "00110000"
digits_of_address = refl
