-- ===== src/OnDemand.antt =====
-- examples/on_demand/main/main.c: a console that asks for updates, and a worker task that runs them.
-- What is printed is left out, but for the command `version`.
pub mod Semaphore
pub mod Command
pub mod Worker
pub mod Lifetime
pub mod Startup
pub mod Version
mod Tests
use esp32s3_ota_api.Prelude.{
  ℕ, Bool, true, false, leb, Option, none, some, List, [], ◌∷◌, length, if◌then◌else◌,
}
use esp32s3_ota_api.Prelude.CString.{CString}
use esp32s3_ota_api.Err.{Err, is_ok}
use esp32s3_ota_api.Config.{Kconfig, Config, config_default}
use esp32s3_ota_api.System.{Platform, Sys}
use esp32s3_ota_api.Update.{update}
use esp32s3_ota_api.Console.{snprintf_s}

-- `OTA_URL_SIZE`
abbrev pub ota_url_size : ℕ
ota_url_size = 256

-- `s_ota_url` and `s_ota_running`
pub record Statics : Type 0 where
  pub ota_url : CString
  pub ota_running : Bool

-- Where the world keeps them, and what else the application calls: `xSemaphoreGive` and
-- `xSemaphoreTake` on `s_ota_request`, where `none` means that the taker waits, and
-- `example_disconnect` with the delay after it.
pub record App (W : Type 0) : Type 0 where
  pub statics : W → Statics
  pub store : Statics → W → W
  pub semaphore_give : W → Bool × W
  pub semaphore_take : W → Option W
  pub shut_down : W → W

-- How a round of the worker's loop ends: it still waits for a request, it has gone back to the top,
-- or the device restarts.
pub data Round : Type 0 where
  waits continues restarts : Round

-- What the command does to what it shares with the worker, one access at a time.
pub data Action : Type 0 where
  writes_url : CString → Action
  raises_flag gives : Action

abbrev pub url_of : CString → List CString → CString
url_of default_url [] = default_url
url_of default_url (arg ∷ args) = arg

-- The part of `cmd_ota` after its tests, in its order.
unfoldable pub requested : CString → List Action
requested url = writes_url url ∷ raises_flag ∷ gives ∷ []

-- What the console has still to do once the tests of the command are through.
pub pending : Option CString → List Action
pending none = []
pending (some url) = requested url

module _ (P : Platform) (A : App (P.World)) where
  open P use {World}
  open A use {statics, store, semaphore_give, semaphore_take, shut_down}

  -- `snprintf` into `s_ota_url`, the store to `s_ota_running`, and `xSemaphoreGive`, whose answer is
  -- not looked at.
  pub act : Action → World → World
  act (writes_url url) w = store (record (statics w) { ota_url = snprintf_s ota_url_size url }) w
  act raises_flag w = store (record (statics w) { ota_running = true }) w
  act gives w = (semaphore_give w).1

  pub act_all : List Action → World → World
  act_all [] w = w
  act_all (action ∷ actions) w = act_all actions (act action w)

  -- The tests of `cmd_ota`, with CONFIG_EXAMPLE_DEFAULT_FIRMWARE_UPGRADE_URL and the arguments from
  -- `argv[1]` on: the URL to request, if any.
  pub asked_url : CString → List CString → World → Option CString
  asked_url default_url args w =
      let url = url_of default_url args in
      if (statics w).ota_running
      then none
      else if leb ota_url_size (length url)
      then none
      else some url

  -- What it then does and answers.
  pub request : Option CString → World → ℕ × World
  request none w = (1, w)
  request (some url) w = (0, act_all (pending (some url)) w)

  unfoldable pub cmd_ota : CString → List CString → World → ℕ × World
  unfolding request asked_url act_all pending requested act
  cmd_ota default_url args w = request (asked_url default_url args w) w

  module _ (skip_common_name_check : Bool) (K : Kconfig) where
    abbrev pub ota_config : CString → Config World
    ota_config url = record config_default {
      url = some url;
      skip_common_name_check = skip_common_name_check;
    }

    -- After `ota_api_update`.
    pub conclude : Err × Sys World → Round × Sys World
    conclude (err, s) = if is_ok err then (restarts, record s { world = shut_down s.world }) else (
      continues,
      record s { world = store (record (statics s.world) { ota_running = false }) s.world },
    )

    pub concluded : Option (Err × Sys World) → Option (Round × Sys World)
    concluded none = none
    concluded (some r) = some (conclude r)

    -- From the taken semaphore on, with fuel for the update.
    pub serve : ℕ → Sys World → Option (Round × Sys World)
    serve fuel s = concluded (update P K fuel (some (ota_config (statics s.world).ota_url)) s)

    -- One round of `while (1)` in `ota_worker_task`.
    unfoldable pub worker_round : ℕ → Sys World → Option (Round × Sys World)
    unfolding serve concluded conclude
    worker_round fuel s = elim (semaphore_take s.world) [
      | none ↦ some (waits, s)
      | some w ↦ serve fuel (record s { world = w; trace = [] })
    ]
