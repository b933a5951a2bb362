-- ===== src/Console/Tests.antt =====
-- The console on a device whose memory is just its variables.
use mathlib.Core.Path.{subst}
use mathlib.Core.Option.{some-injective}
use esp32s3_ota_api.Prelude.{
  Bool, ◌||◌, ◌&&◌, ℕ, ◌≡◌, ◌↔◌, ◌⊎◌, refl, true, false, none, some, List, [], ◌∷◌, length, arith,
}
use esp32s3_ota_api.Prelude.Int.{pos}
use esp32s3_ota_api.Prelude.CString.{CString, codes, strcmp}
use esp32s3_ota_api.Err.{esp_ok, validate_failed}
use esp32s3_ota_api.Slot.{initial, claim_update_slot, is_running}
use esp32s3_ota_api.Config.{Event, EventCb}
use esp32s3_ota_api.System.{Platform}
use esp32s3_ota_api.Report.{progress_of}
use esp32s3_ota_api.Task.{Rtos, State, start_task}
use esp32s3_ota_api.Examples.{kconfig, desc, bundle}
use esp32s3_ota_api.Console
use esp32s3_ota_api.Console.Completion.{both, Completes, cmd_ota-Completes}
use esp32s3_ota_api.Update.Termination.{IsFinite}
use esp32s3_ota_api.Update.Memory.{IsUntouched}
use esp32s3_ota_api.Console.{
  Statics, Options, App, writes_url, writes_force, raises_pending, starts_task, launching, act,
  lower, perform, asked, launch, on_ota_event_cb, progress_bar_width, bar, parse, is_busy, cmd_ota,
}
use esp32s3_ota_api.Console.Veto.{verdict, Unwanted, verdict-Unwanted}
use esp32s3_ota_api.Console.Input.{Chosen, Forces, parse-Chosen-Forces}
use esp32s3_ota_api.Console.Bar.{bar-progress_of}
use esp32s3_ota_api.Console.Commands.{IsMemory, Commanded, cmd_ota-Commanded}
use esp32s3_ota_api.Console.Lifetime.{
  gone, created, updating, is_alive, within, to_do, is_launching, with_slot, types_ota, acts,
  claims, hears, Reach, boots, later,
}
use esp32s3_ota_api.Console.Lifetime.Heard.{during-pending}
use esp32s3_ota_api.Console.Lifetime.Safety.{is_busy-is_alive, Step-url}

abbrev quiet : {A : Type 0} → A → Statics → A × Statics
quiet a w = (a, w)

abbrev device : Platform
device = record {
  World = Statics;
  Handle = ℕ;
  net = record { esp_crt_bundle_attach = bundle; impl_name = λ n. codes "en1" };
  meanwhile = λ w. [];
  https_ota_begin = λ c w. quiet (esp_ok, 7) w;
  https_ota_get_img_desc = λ h w. quiet (esp_ok, desc) w;
  https_ota_get_image_size = λ h w. pos 3000;
  https_ota_perform = λ h w. quiet esp_ok w;
  https_ota_is_complete_data_received = λ h w. true;
  https_ota_get_image_len_read = λ h w. pos 3000;
  https_ota_abort = λ h w. quiet esp_ok w;
  https_ota_finish = λ h w. quiet esp_ok w;
  timer_get_time = λ w. pos 0;
}

abbrev app : App Statics
app = record { statics = λ w. w; store = λ v w. v; app_description = desc; shut_down = λ w. w }

abbrev rtos : Rtos device
rtos = record { malloc = λ w. (some 64, w); task_create = λ stack copy priority w. (true, w) }

abbrev options : Options
options = record {
  default_url = codes "https://d";
  progress_interval_ms = 500;
  http_request_size = 16384;
  skip_common_name_check = false;
}

memory : IsMemory device app rtos
memory = record {
  read_back = λ v w. refl;
  overwrite = λ u v w. refl;
  apart = record { malloc_apart = λ w. refl; create_apart = λ stack copy priority w. refl };
  shut_down_apart = λ w. refl;
}

abbrev booted : State device
booted = record {
  heap = λ a. none;
  sys = record {
    shared = record { slot = initial; other = false };
    world = record {
      ota_url = [];
      force_update = false;
      ota_pending = false;
      download_start_us = pos 0;
    };
    trace = [];
  };
}

-- ota force https://h
abbrev typed : List CString
typed = codes "force" ∷ codes "https://h" ∷ []

parse-Chosen-Forces_example :
    let (u, force) = parse typed options.default_url false in
    Chosen typed options.default_url u × ((force ≡ true) ↔ Forces typed)
parse-Chosen-Forces_example = parse-Chosen-Forces typed options.default_url

parse-typed : parse typed options.default_url false ≡ (codes "https://h", true)
unfolding parse strcmp
parse-typed = refl

abbrev read : ℕ
read = 1000

abbrev total : ℕ
total = 3000

bar-progress_of_run :
    (k : ℕ) × ((progress_of read (pos total)).percent ≡ pos k)
    × (length (bar k) ≡ progress_bar_width)
bar-progress_of_run = bar-progress_of read total (omega arith) (omega arith) (omega arith)

cmd_ota-Commanded_example :
    Commanded device app rtos kconfig memory options typed booted
      (cmd_ota device app rtos kconfig options typed booted)
cmd_ota-Commanded_example =
    cmd_ota-Commanded device app rtos kconfig memory options typed booted (λ v a e. refl)

-- The device once the command above is accepted.
abbrev accepted : State device
accepted = (cmd_ota device app rtos kconfig options typed booted).1

-- The accesses of the command, after its tests.
reach_accepted : Reach device app rtos kconfig options memory accepted (within []) created
unfolding cmd_ota asked to_do launch launching perform act lower start_task parse strcmp is_running
reach_accepted =
    later
      (later
        (later
          (later (later (boots booted refl refl) (types_ota typed gone)) (
            acts (writes_url (codes "https://h"))
              (writes_force true ∷ raises_pending ∷ starts_task ∷ []) gone))
          (acts (writes_force true) (raises_pending ∷ starts_task ∷ []) gone))
        (acts raises_pending (starts_task ∷ []) gone))
      (acts starts_task [] gone)

-- Its task has claimed the slot.
abbrev downloading : State device
downloading =
    with_slot device app rtos kconfig options memory (claim_update_slot accepted.sys.shared.slot).1
      accepted

reach_running : Reach device app rtos kconfig options memory downloading (within []) updating
unfolding claim_update_slot cmd_ota start_task parse strcmp is_running
reach_running = later reach_accepted (claims (within []))

is_busy-is_alive_example :
    (is_busy device app rtos kconfig options accepted
      ≡ (is_alive created || is_launching (within [])))
    × ((is_alive created && is_launching (within [])) ≡ false)
is_busy-is_alive_example = is_busy-is_alive device app rtos kconfig options memory reach_accepted

Step-url_example :
    ((on_ota_event_cb device app Event.started 0 downloading.sys.world).1.ota_url
      ≡ downloading.sys.world.ota_url)
    × ((args : List CString) → asked device app rtos kconfig options args downloading ≡ none)
Step-url_example =
    Step-url device app rtos kconfig options memory reach_running refl
      (hears (within []) Event.started refl)

verdict-Unwanted_run :
    ((verdict device app (Event.image_desc desc) 0 booted.sys.world ≡ validate_failed)
      ↔ Unwanted booted.sys.world desc (Event.image_desc desc))
    × ((verdict device app (Event.image_desc desc) 0 booted.sys.world ≡ esp_ok)
        ⊎ (verdict device app (Event.image_desc desc) 0 booted.sys.world ≡ validate_failed))
verdict-Unwanted_run = verdict-Unwanted device app (Event.image_desc desc) 0 booted.sys.world

finite : (url : CString) → IsFinite device (Console.ota_config device app options url) (λ w. 0)
finite url = record {
  perform_falls = λ handle w h. cc;
  callback_keeps = λ event_cb e event w. omega arith;
}

abbrev seen : Statics → Bool × CString
seen w = (w.ota_pending, w.ota_url)

untouched : (url : CString) → IsUntouched device (Console.ota_config device app options url) seen
untouched url = record {
  by_begin = λ c w. refl;
  by_img_desc = λ h w. refl;
  by_perform = λ h w. refl;
  by_abort = λ h w. refl;
  by_finish = λ h w. refl;
  by_callback = λ cb present event during w.
      let (pending, same) = during-pending device app rtos kconfig options memory event w during in
      subst (λ (c : EventCb Statics). seen (c event 0 w).1 ≡ seen w) (some-injective _ _ present)
        (both pending same);
}

accepts : (cmd_ota device app rtos kconfig options typed booted).0 ≡ 0
unfolding cmd_ota start_task parse strcmp is_running
accepts = refl

cmd_ota-Completes_example :
    (copy : ℕ) × Completes device app rtos kconfig options memory
      (codes "https://h")
      booted
      copy
      (cmd_ota device app rtos kconfig options typed booted).1
unfolding parse strcmp
cmd_ota-Completes_example =
    cmd_ota-Completes device app rtos kconfig options memory (λ w. 0) finite untouched typed booted
      (λ v a e. refl) refl accepts
