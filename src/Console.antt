-- ===== src/Console.antt =====
-- examples/advanced/main/main.c: an application that puts updates and the trial run under console
-- control. What it prints is left out, but for the progress line, what `app_main`
-- ends with, and the command `version`.
pub mod Input
pub mod Bar
pub mod ProgressLine
pub mod Veto
pub mod Commands
pub mod Lifetime
pub mod Completion
pub mod Startup
pub mod Version
mod Tests
use esp32s3_ota_api.Prelude.{
  ℕ, ◌+◌, ◌-◌, ◌*◌, ◌/◌, ◌%◌, ◌^◌, leb, Bool, true, false, not, ◌&&◌, ◌||◌, Option, none, some,
  List, [], ◌∷◌, ◌++◌, length, take, replicate, if◌then◌else◌,
}
use esp32s3_ota_api.Prelude.Int.{ℤ}
use esp32s3_ota_api.Prelude.CString.{CString, codes, is_zero, strcmp, strncmp}
use esp32s3_ota_api.Err.{Err, esp_ok, validate_failed, is_ok}
use esp32s3_ota_api.Slot.{Slot, abort, is_running}
use esp32s3_ota_api.Config.{Kconfig, AppDesc, Event, EventCb, Config, config_default}
use esp32s3_ota_api.System.{Platform}
use esp32s3_ota_api.Task
use esp32s3_ota_api.Task.{Rtos, start_task}
use esp32s3_ota_api.Trial
use esp32s3_ota_api.Trial.{
  Board, Rollback, rebooted, refused, is_on_trial, trial_confirm, trial_reject,
}

-- `OTA_URL_SIZE` and `PROGRESS_BAR_WIDTH`
abbrev pub ota_url_size : ℕ
ota_url_size = 256

abbrev pub progress_bar_width : ℕ
progress_bar_width = 30

-- The file's variables. A buffer holds a string.
pub record Statics : Type 0 where
  pub ota_url : CString
  pub force_update : Bool
  pub ota_pending : Bool
  pub download_start_us : ℤ

-- The CONFIG_EXAMPLE_ values.
pub record Options : Type 0 where
  pub default_url : CString
  pub progress_interval_ms : ℕ
  pub http_request_size : ℕ
  pub skip_common_name_check : Bool

-- Where the world keeps the variables, and what else the application calls: the description of the
-- running image, and `example_disconnect` with the delay after it.
pub record App (W : Type 0) : Type 0 where
  pub statics : W → Statics
  pub store : Statics → W → W
  pub app_description : AppDesc
  pub shut_down : W → W

-- What the command `ota` does to what it shares with the update task, one access at a time, and the
-- call that creates the task.
pub data Action : Type 0 where
  writes_url : CString → Action
  writes_force : Bool → Action
  raises_pending starts_task : Action

-- The part of `cmd_ota` after its tests, in its order.
unfoldable pub launching : CString → Bool → List Action
launching url force = writes_url url ∷ writes_force force ∷ raises_pending ∷ starts_task ∷ []

-- The bar that `print_progress_bar` draws for a percentage that is not negative.
abbrev pub filled : ℕ → ℕ
filled percent = percent * progress_bar_width / 100

-- The second `memset` takes a `size_t`, so a difference below 0 wraps around.
unfoldable pub bar : ℕ → CString
bar percent =
    replicate (filled percent) b'#'
    ++ replicate ((progress_bar_width + (2 ^ 32 - filled percent)) % 2 ^ 32) b'.'

abbrev pub is_force : CString → Bool
is_force arg = is_zero (strcmp arg (codes "force"))

-- The loop over `argv`, from `argv[1]` on, with `url` and `force`.
unfoldable pub parse : List CString → CString → Bool → CString × Bool
parse [] url force = (url, force)
parse (arg ∷ args) url force = if is_force arg then parse args url true else parse args arg force

-- `snprintf` with "%s" into a buffer of `size` bytes, which is not 0.
abbrev pub snprintf_s : ℕ → CString → CString
snprintf_s size s = take (size - 1) s

module _ (P : Platform) (A : App (P.World)) where
  open P use {World, timer_get_time}
  open A use {statics, store, app_description, shut_down}

  -- `sizeof(new_app->version)` is 32.
  abbrev pub is_refused : Statics → AppDesc → Bool
  is_refused v new_app =
      not v.force_update && is_zero (strncmp new_app.version app_description.version 32)

  unfoldable pub on_ota_event_cb : EventCb World
  on_ota_event_cb Event.started user_ctx w =
      (esp_ok, store (record (statics w) { download_start_us = timer_get_time w }) w)
  on_ota_event_cb (Event.image_desc new_app) user_ctx w =
      if is_refused (statics w) new_app then (validate_failed, w) else (esp_ok, w)
  on_ota_event_cb (Event.progress _) user_ctx w = (esp_ok, w)
  on_ota_event_cb Event.succeeded user_ctx w = (esp_ok, shut_down w)
  on_ota_event_cb (Event.failed _) user_ctx w =
      (esp_ok, store (record (statics w) { ota_pending = false }) w)

  -- The config of `cmd_ota`; `url` is what its buffer holds.
  abbrev pub ota_config : Options → CString → Config World
  ota_config options url = record config_default {
    url = some url;
    event_cb = some on_ota_event_cb;
    progress_interval_ms = options.progress_interval_ms;
    partial_download = true;
    max_http_request_size = options.http_request_size;
    skip_common_name_check = options.skip_common_name_check;
  }

  module _ (R : Rtos P) (K : Kconfig) (options : Options) where
    abbrev pub set : Statics → Task.State P → Task.State P
    set v s = record s { sys = record s.sys { world = store v s.sys.world } }

    abbrev pub variables : Task.State P → Statics
    variables s = statics s.sys.world

    -- The config has a pointer to the buffer, so what the buffer holds by then is its URL.
    pub act : Action → Task.State P → Err × Task.State P
    act (writes_url url) s =
        (esp_ok, set (record (variables s) { ota_url = snprintf_s ota_url_size url }) s)
    act (writes_force force) s = (esp_ok, set (record (variables s) { force_update = force }) s)
    act raises_pending s = (esp_ok, set (record (variables s) { ota_pending = true }) s)
    act starts_task s = start_task P R K (some (ota_config options (variables s).ota_url)) s

    -- If the task could not be started.
    pub lower : Task.State P → Task.State P
    lower s = set (record (variables s) { ota_pending = false }) s

    pub perform : List Action → Task.State P → ℕ × Task.State P
    perform [] s = (0, s)
    perform (action ∷ actions) s =
        let (err, s') = act action s in if is_ok err then perform actions s' else (1, lower s')

    abbrev pub is_busy : Task.State P → Bool
    is_busy s = (variables s).ota_pending || is_running s.sys.shared.slot

    -- The tests of the command: the URL to fetch and whether to force it, unless it is refused.
    pub asked : List CString → Task.State P → Option (CString × Bool)
    asked args s =
        let (url, force) = parse args options.default_url false in
        if is_busy s
        then none
        else if leb ota_url_size (length url)
        then none
        else some (url, force)

    pub launch : Option (CString × Bool) → Task.State P → ℕ × Task.State P
    launch none s = (1, s)
    launch (some (url, force)) s = perform (launching url force) s

    unfoldable pub cmd_ota : List CString → Task.State P → ℕ × Task.State P
    unfolding asked launch launching perform act lower
    cmd_ota args s = launch (asked args s) s

unfoldable pub cmd_abort : Slot → ℕ × Slot
cmd_abort slot = let (err, slot') = abort slot in (if is_ok err then 0 else 1, slot')

module _ (B : Board) where
  unfoldable pub cmd_confirm : Trial.State B → ℕ × Trial.State B
  cmd_confirm s = let (err, s') = trial_confirm B s in (if is_ok err then 0 else 1, s')

  -- `none` if the device reboots.
  unfoldable pub cmd_rollback : Trial.State B → Option ℕ
  cmd_rollback s = elim (trial_reject B s) [ rebooted _ ↦ none | refused err _ ↦ some 1 ]

  -- The two answers that `cmd_status` prints.
  unfoldable pub cmd_status : Slot → Trial.State B → Bool × Bool
  cmd_status slot s = (is_running slot, is_on_trial B s.world)
