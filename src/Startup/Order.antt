-- ===== src/Startup/Order.antt =====
-- The order of the calls of a start-up, against a table of what each call needs.
use esp32s3_ota_api.Prelude.{ℕ, ◌+◌, not, Bool, true, false, ◌&&◌, ◌||◌, List, [], ◌∷◌, ◌==◌}
use esp32s3_ota_api.Err.{Err, is_ok}
use esp32s3_ota_api.Startup.{
  Handler, ota, abort, confirm, rollback, version, status, Call, nvs_init, nvs_erase, netif_init,
  event_loop, connect, semaphore, worker, new_repl, registers, register_help, start_repl,
  trial_begin, bind_netif, stdin_url, start_task,
}

abbrev code_of : Handler → ℕ
code_of ota = 0
code_of abort = 1
code_of confirm = 2
code_of rollback = 3
code_of version = 4
code_of status = 5

abbrev code : Call → ℕ
code nvs_init = 0
code nvs_erase = 1
code netif_init = 2
code event_loop = 3
code connect = 4
code semaphore = 5
code worker = 6
code new_repl = 7
code register_help = 8
code start_repl = 9
code trial_begin = 10
code start_task = 11
code bind_netif = 12
code stdin_url = 13
code (registers h) = 14 + code_of h

abbrev pub same : Call → Call → Bool
same c d = code c == code d

-- The call was made, and succeeded.
abbrev pub has : Call → List (Call × Err) → Bool
has c [] = false
has c ((d, err) ∷ calls) = (same c d && is_ok err) || has c calls

abbrev pub all_of : List Call → List (Call × Err) → Bool
all_of [] calls = true
all_of (c ∷ cs) calls = has c calls && all_of cs calls

-- Whatever was called had what it needs.
abbrev pub ordered : (Call → List Call) → List (Call × Err) → Bool
ordered needs [] = true
ordered needs ((c, err) ∷ calls) = all_of (needs c) calls && ordered needs calls

-- The latest call failed.
abbrev pub failed : List (Call × Err) → Bool
failed [] = false
failed ((c, err) ∷ calls) = not (is_ok err)

-- What the calls of the examples need: the helpers of the network need the storage and the event
-- loop, an update needs the network, a command needs the console, a worker the semaphore it waits
-- on, and the trial needs the console that can confirm it. `console` is what the console needs
-- before it is started.
abbrev pub needs : List Call → Call → List Call
needs console netif_init = nvs_init ∷ []
needs console event_loop = nvs_init ∷ netif_init ∷ []
needs console connect = nvs_init ∷ netif_init ∷ event_loop ∷ []
needs console worker = semaphore ∷ connect ∷ []
needs console (registers h) = new_repl ∷ []
needs console register_help = new_repl ∷ []
needs console start_repl = console
needs console trial_begin = start_repl ∷ connect ∷ []
needs console bind_netif = connect ∷ []
needs console start_task = connect ∷ []
needs console _ = []
