-- ===== src/Startup.antt =====
-- The start of `app_main` in the four examples under examples/: calls in a row, most of them under
-- ESP_ERROR_CHECK. The lines are those of examples/advanced/main/main.c, which the others repeat.
pub mod Order
pub mod Rules
pub mod Network
pub mod Owns
pub mod Example
use esp32s3_ota_api.Prelude.{ℕ, ◌+◌, Bool, true, false, ◌||◌, Option, List, [], ◌∷◌, if◌then◌else◌}
use esp32s3_ota_api.Prelude.CString.{CString}
use esp32s3_ota_api.Err.{Err, esp_ok, no_mem, nvs_no_free_pages, nvs_new_version_found, is_ok}

-- The functions of the console commands.
pub data Handler : Type 0 where
  ota abort confirm rollback version status : Handler

-- `esp_console_cmd_t`
pub record Command : Type 0 where
  pub command : CString
  pub help : CString
  pub hint : Option CString
  pub func : Handler

-- The calls whose result the examples look at.
pub data Call : Type 0 where
  nvs_init nvs_erase netif_init event_loop connect : Call
  semaphore worker new_repl : Call
  registers : Handler → Call
  register_help start_repl trial_begin bind_netif stdin_url start_task : Call

-- ESP-IDF and the helpers of its examples, over the world.
pub record Idf (W : Type 0) : Type 0 where
  pub nvs_flash_init : W → Err × W
  pub nvs_flash_erase : W → Err × W
  pub netif_init : W → Err × W
  pub event_loop_create_default : W → Err × W
  pub example_connect : W → Err × W
  pub wifi_set_ps_none : W → W
  pub console_new_repl_uart : W → Err × W
  pub console_cmd_register : Command → W → Err × W
  pub console_register_help_command : W → Err × W
  pub console_start_repl : W → Err × W
  pub semaphore_create_binary : W → Bool × W
  pub task_create : ℕ → ℕ → W → Bool × W

-- The program's own variables, the world, and the calls made so far with their results, the latest
-- first, of which the program keeps no record.
pub record Boot (T W : Type 0) : Type 0 where
  pub own : T
  pub world : W
  pub calls : List (Call × Err)

-- A step of the program returns, or the device halts at `abort` or a failed ESP_ERROR_CHECK.
pub data Result (A : Type 0) : Type 0 where
  done : A → Result A
  halted : Result A

abbrev pub Program : Type 0 → Type 0 → Type 0 → Type 0
Program T W A = Boot T W → Result A × Boot T W

-- `ESP_ERROR_CHECK(ok ? ESP_OK : ESP_ERR_NO_MEM)`
abbrev pub or_no_mem : {W : Type 0} → (W → Bool × W) → W → Err × W
or_no_mem op w = let (ok, w') = op w in (if ok then esp_ok else no_mem, w')

abbrev pub wants_erase : Err → Bool
wants_erase nvs_no_free_pages = true
wants_erase nvs_new_version_found = true
wants_erase _ = false

module _ {T W : Type 0} where
  unfoldable pub pure : {A : Type 0} → A → Program T W A
  pure a b = (done a, b)

  unfoldable pub halt : {A : Type 0} → Program T W A
  halt b = (halted, b)

  abbrev pub continue : {A B : Type 0} → Result A → (A → Program T W B) → Program T W B
  continue (done a) f b = f a b
  continue halted f b = (halted, b)

  infixl 5 ◌>>=◌ ◌>>◌
  unfoldable pub ◌>>=◌ : {A B : Type 0} → Program T W A → (A → Program T W B) → Program T W B
  unfolding pure halt
  ◌>>=◌ m f b = let (r, b') = m b in continue r f b'

  abbrev pub ◌>>◌ : {A B : Type 0} → Program T W A → Program T W B → Program T W B
  m >> n = m >>= λ _. n

  -- A call that may touch the program's variables as well.
  unfoldable pub call_own : Call → (T → W → Err × T × W) → Program T W Err
  call_own c op b =
      let (err, own, w) = op b.own b.world in
      (done err, record { own = own; world = w; calls = (c, err) ∷ b.calls })

  unfoldable pub call : Call → (W → Err × W) → Program T W Err
  unfolding call_own
  call c op = call_own c (λ own w. let (err, w') = op w in (err, own, w'))

  -- `ESP_ERROR_CHECK(err)`
  unfoldable pub error_check : Err → Program T W (Unit {0})
  error_check err = if is_ok err then pure tt else halt

  unfoldable pub checked : Call → (W → Err × W) → Program T W (Unit {0})
  unfolding call error_check ◌>>=◌
  checked c op = do err ← call c op; error_check err

  -- A call without a result.
  unfoldable pub silently : (W → W) → Program T W (Unit {0})
  silently op b = (done tt, record b { world = op b.world })

  module _ (I : Idf W) where
    -- The body of the `if` on the first result.
    unfoldable pub retry_nvs : Program T W Err
    retry_nvs = do checked nvs_erase I.nvs_flash_erase; call nvs_init I.nvs_flash_init

    unfoldable pub init_nvs : Program T W (Unit {0})
    unfolding retry_nvs call checked error_check ◌>>=◌
    init_nvs = do
      err ← call nvs_init I.nvs_flash_init
      err' ← if wants_erase err then retry_nvs else pure err
      error_check err'

    unfoldable pub init_netif : Program T W (Unit {0})
    init_netif = do checked netif_init I.netif_init; checked event_loop I.event_loop_create_default

    -- `connect_wifi` is CONFIG_EXAMPLE_CONNECT_WIFI.
    unfoldable pub spare_no_power : Bool → Program T W (Unit {0})
    spare_no_power connect_wifi = if connect_wifi then silently I.wifi_set_ps_none else pure tt

    unfoldable pub register_all : List Command → Program T W (Unit {0})
    register_all [] = pure tt
    register_all (c ∷ commands) = do
      checked (registers c.func) (I.console_cmd_register c)
      register_all commands
