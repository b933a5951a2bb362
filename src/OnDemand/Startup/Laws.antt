-- ===== src/OnDemand/Startup/Laws.antt =====
-- examples/on_demand/main/main.c, `app_main`: the worker stands before the console can ask for it.
use esp32s3_ota_api.Prelude.{◌≡◌, refl, Bool, List, [], ◌∷◌, arith}
use esp32s3_ota_api.Startup.{
  ota, version, Call, connect, semaphore, worker, new_repl, registers, register_help, start_repl,
  Idf, Boot,
}
use esp32s3_ota_api.Startup.Order.{all_of, needs}
use esp32s3_ota_api.Startup.Rules.{
  Follows, Leads, Leads-bind, Leads-call_own, Leads-error_check, Leads-checked, Leads-register_all,
  Leads-weaken,
}
use esp32s3_ota_api.Startup.Network.{connected, Leads-onto_network}
use esp32s3_ota_api.OnDemand.Startup.{
  ota_cmd, version_cmd, register_commands, create_request, create_worker, app_main,
}

-- What stands before the console is started.
abbrev pub console : List Call
console =
    register_help ∷ registers version ∷ registers ota ∷ new_repl ∷ worker ∷ semaphore ∷ connect ∷ []

-- All that has succeeded by then.
abbrev ready : List Call
ready = worker ∷ semaphore ∷ connected

module _ {W : Type 0} (I : Idf W) where
  Leads-register_commands :
      (before : List Call)
      → Leads
          (needs console)
          (all_of (new_repl ∷ before))
          (register_commands I)
          (λ _. all_of (register_help ∷ registers version ∷ registers ota ∷ new_repl ∷ before))
  unfolding register_commands
  Leads-register_commands before =
      Leads-bind
        (Leads-register_all I (ota_cmd ∷ []) (new_repl ∷ before) (λ h calls k. ground arith))
        (λ _.
          Leads-bind
            (Leads-register_all I (version_cmd ∷ []) (registers ota ∷ new_repl ∷ before)
              (λ h calls k. ground arith))
            (λ _.
              Leads-checked register_help I.console_register_help_command
                (registers version ∷ registers ota ∷ new_repl ∷ before) (λ calls k. ground arith)))

  Leads-app_main :
      (connect_wifi : Bool)
      → Leads
          (needs console)
          (all_of [])
          (app_main I connect_wifi)
          (λ _. all_of (start_repl ∷ console))
  unfolding app_main
  Leads-app_main connect_wifi = Leads-onto_network I console connect_wifi (
      Leads-bind (Leads-call_own semaphore (create_request I) connected (λ calls h. refl)) (λ err.
        Leads-bind (Leads-error_check semaphore connected err) (λ _.
          Leads-bind
            (Leads-checked worker (create_worker I) (semaphore ∷ connected)
              (λ calls h. ground arith))
            (λ _.
              Leads-bind (Leads-checked new_repl I.console_new_repl_uart ready (λ calls h. refl))
                (λ _. Leads-bind (Leads-register_commands ready) (λ _.
                  Leads-weaken (λ calls h. h) (λ _ calls h. ground arith)
                    (Leads-checked start_repl I.console_start_repl
                      (register_help ∷ registers version ∷ registers ota ∷ new_repl ∷ ready)
                      (λ calls h. ground arith))))))))

  -- However the calls of `app_main` end, each is made only once what it needs has succeeded: the
  -- network's helpers after the storage, the network and the event loop, the worker after the
  -- network is connected and the semaphore it waits on is created, a command after the console is
  -- created, and the console's start after all of these, both commands and the help being
  -- registered. The device halts only at a call that failed. If `app_main` ends, the console's
  -- start and what it needs have succeeded.
  pub app_main-console_last :
      (connect_wifi : Bool) (b : Boot Bool W)
      → b.calls ≡ []
      → Follows (needs console) (λ _. all_of (start_repl ∷ console)) (app_main I connect_wifi b)
  app_main-console_last connect_wifi b fresh =
      (Leads-app_main connect_wifi).at b (rw fresh refl, refl)
