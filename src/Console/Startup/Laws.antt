-- ===== src/Console/Startup/Laws.antt =====
-- examples/advanced/main/main.c, `app_main`: the console stands before the trial begins.
use esp32s3_ota_api.Prelude.{
  ◌≡◌, refl, Bool, ◌&&◌, Option, List, [], ◌∷◌, arith, if◌then◌else◌, inl, inr, Bool-cases,
}
use esp32s3_ota_api.Err.{Err, is_ok}
use esp32s3_ota_api.Config.{Kconfig}
use esp32s3_ota_api.Trial.{Board}
use esp32s3_ota_api.Startup.{
  ota, abort, confirm, rollback, version, status, Call, connect, new_repl, registers, register_help,
  start_repl, trial_begin, Idf, Boot, pure,
}
use esp32s3_ota_api.Startup.Order.{has, all_of, failed, needs}
use esp32s3_ota_api.Startup.Rules.{
  Fact, Follows, Leads, adds, registered, Leads-pure, Leads-bind, Leads-call_own, Leads-checked,
  Leads-weaken, Leads-register_all,
}
use esp32s3_ota_api.Startup.Network.{connected, Leads-onto_network}
use esp32s3_ota_api.Console.Startup.{
  Shown, banner, ready, commands, register_commands, begin, app_main,
}

-- What stands before the console is started.
abbrev pub console : List Call
console =
    register_help
    ∷ registers status
    ∷ registers version
    ∷ registers rollback
    ∷ registers confirm
    ∷ registers abort
    ∷ registers ota
    ∷ new_repl
    ∷ connect
    ∷ []

-- The banner stands for a trial that has begun; without it the latest call failed.
abbrev pub tells : Shown → Fact
tells (banner seconds) calls = has trial_begin calls
tells ready calls = failed calls

abbrev pub Up : Shown → Fact
Up shown calls = all_of (start_repl ∷ console) calls && tells shown calls

-- All that has succeeded by then.
abbrev prepared : List Call
prepared = register_help ∷ registered commands (new_repl ∷ connected)

module _ (B : Board) (I : Idf (B.World)) (K : Kconfig) where
  Leads-register_commands :
      (before : List Call)
      → Leads
          (needs console)
          (all_of (new_repl ∷ before))
          (register_commands B I K)
          (λ _. all_of (register_help ∷ registered commands (new_repl ∷ before)))
  unfolding register_commands
  Leads-register_commands before =
      Leads-bind (Leads-register_all I commands (new_repl ∷ before) (λ h calls k. ground arith))
        (λ _.
          Leads-checked register_help I.console_register_help_command
            (registered commands (new_repl ∷ before)) (λ calls k. ground arith))

  -- The end, once the console runs.
  Leads-last :
      (before : List Call) (err : Err)
      → Leads
          (needs console)
          (adds trial_begin before err)
          (pure {T = Option (B.Timer)} {W = B.World}
            (if is_ok err then banner K.trial_timeout_s else ready))
          (λ shown calls. all_of before calls && tells shown calls)
  Leads-last before err = elim (Bool-cases (is_ok err)) [
    | inl ok ↦ rw ok (
        Leads-weaken (λ calls h. ground (arith, ok, h)) (λ shown calls h. h)
          (Leads-pure (banner K.trial_timeout_s)
            (λ shown calls. all_of before calls && tells shown calls)))
    | inr bad ↦ rw bad (
        Leads-weaken (λ calls h. ground (arith, bad, h)) (λ shown calls h. h)
          (Leads-pure ready (λ shown calls. all_of before calls && tells shown calls)))
  ]

  Leads-app_main :
      (connect_wifi : Bool) → Leads (needs console) (all_of []) (app_main B I K connect_wifi) Up
  unfolding app_main
  Leads-app_main connect_wifi = Leads-onto_network I console connect_wifi (
      Leads-bind (Leads-checked new_repl I.console_new_repl_uart connected (λ calls h. refl)) (λ _.
        Leads-bind (Leads-register_commands connected) (λ _.
          Leads-bind
            (Leads-checked start_repl I.console_start_repl prepared (λ calls h. ground arith))
            (λ _.
              Leads-bind
                (Leads-call_own trial_begin (begin B I K) (start_repl ∷ prepared)
                  (λ calls h. ground arith))
                (λ err.
                  Leads-weaken (λ calls h. h) (λ shown calls h. ground arith)
                    (Leads-last (start_repl ∷ prepared) err))))))

  -- However the calls of `app_main` end, each is made only once what it needs has succeeded: the
  -- network's helpers after the storage, the network and the event loop, a command after the console
  -- is created, the console's start after the network is connected and all six commands and the help
  -- are registered, and the trial after the console's start. The device halts only at a call that
  -- failed. If `app_main` ends, the console's start and what it needs have succeeded, and what is
  -- shown is the banner, a call to begin the trial having succeeded, or the line that the console is
  -- ready, the latest call having failed.
  pub app_main-trial_last :
      (connect_wifi : Bool) (b : Boot (Option (B.Timer)) (B.World))
      → b.calls ≡ []
      → Follows (needs console) Up (app_main B I K connect_wifi b)
  app_main-trial_last connect_wifi b fresh =
      (Leads-app_main connect_wifi).at b (rw fresh refl, refl)
