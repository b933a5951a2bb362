-- ===== src/Console/Startup.antt =====
-- examples/advanced/main/main.c: the commands, and `app_main`, which puts them on a console before
-- the trial begins. What is logged is left out; what is shown last is told apart.
pub mod Laws
pub mod Window
mod Tests
use esp32s3_ota_api.Prelude.{ℕ, Bool, true, false, Option, none, some, List, [], ◌∷◌, if◌then◌else◌}
use esp32s3_ota_api.Prelude.CString.{codes}
use esp32s3_ota_api.Err.{Err, is_ok}
use esp32s3_ota_api.Config.{Kconfig}
use esp32s3_ota_api.Trial
use esp32s3_ota_api.Trial.{Board}
use esp32s3_ota_api.Startup.{
  Command, ota, abort, confirm, rollback, version, status, connect, new_repl, register_help,
  start_repl, trial_begin, Idf, Boot, Result, Program, pure, ◌>>=◌, ◌>>◌, call_own, checked,
  init_nvs, init_netif, spare_no_power, register_all,
}

-- The end of `app_main`: the banner with its number of seconds, or the line that the console is
-- ready.
pub data Shown : Type 0 where
  banner : ℕ → Shown
  ready : Shown

abbrev pub commands : List Command
commands =
    record {
      command = codes "ota";
      help = codes "Start an update: ota [url] [force]. Without a url the configured one is used";
      hint = some (codes "[url] [force]");
      func = ota;
    }
    ∷ record {
      command = codes "abort";
      help = codes "Cancel the update in progress";
      hint = none;
      func = abort;
    }
    ∷ record {
      command = codes "confirm";
      help = codes "Keep the firmware currently on trial";
      hint = none;
      func = confirm;
    }
    ∷ record {
      command = codes "rollback";
      help = codes "Reject this firmware and reboot into the previous one";
      hint = none;
      func = rollback;
    }
    ∷ record {
      command = codes "version";
      help = codes "Print the running firmware version, partition and trial state";
      hint = none;
      func = version;
    }
    ∷ record {
      command = codes "status";
      help = codes "Print whether an update is running or awaiting confirmation";
      hint = none;
      func = status;
    }
    ∷ []

module _ (B : Board) (I : Idf (B.World)) (K : Kconfig) where
  open B use {World, Timer}

  pub register_commands : Program (Option Timer) World (Unit {0})
  unfolding register_all
  register_commands = do
    register_all I commands
    checked register_help I.console_register_help_command

  -- `ota_api_trial_begin(0)`
  pub begin : Option Timer → World → Err × Option Timer × World
  begin timer w =
      let (err, s) = Trial.trial_begin B K 0 (record { timer = timer; world = w }) in
      (err, s.timer, s.world)

  -- `connect_wifi` is CONFIG_EXAMPLE_CONNECT_WIFI.
  unfoldable pub app_main : Bool → Program (Option Timer) World Shown
  unfolding register_commands begin init_nvs init_netif checked spare_no_power call_own pure
  app_main connect_wifi = do
    init_nvs I
    init_netif I
    checked connect I.example_connect
    spare_no_power I connect_wifi
    checked new_repl I.console_new_repl_uart
    register_commands
    checked start_repl I.console_start_repl
    err ← call_own trial_begin begin
    pure (if is_ok err then banner K.trial_timeout_s else ready)
