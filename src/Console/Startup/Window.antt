-- ===== src/Console/Startup/Window.antt =====
-- examples/advanced/main/main.c, `app_main`, over src/ota-api-trial.c: what the banner promises.
use esp32s3_ota_api.Prelude.{
  ℕ, ◌+◌, ◌*◌, ◌^◌, ◌<◌, ◌≡◌, inl, inr, Bool, true, Option, some, List, arith, if◌then◌else◌,
  Bool-cases,
}
use esp32s3_ota_api.Err.{Err, esp_ok, is_ok}
use esp32s3_ota_api.Config.{Kconfig}
use esp32s3_ota_api.Trial.{Board, State, is_on_trial, trial_begin}
use esp32s3_ota_api.Trial.Laws.{IsDocumented, countdown, begin-countdown}
use esp32s3_ota_api.Trial.Deadline.{IsClock, Deed, elapsed, run, IsDue, run-IsDue}
use esp32s3_ota_api.Startup
use esp32s3_ota_api.Startup.{
  Idf, Boot, Result, done, Program, continue, pure, ◌>>=◌, call_own, init_nvs, init_netif, checked,
  spare_no_power,
}
use esp32s3_ota_api.Console.Startup.{Shown, banner, ready, register_commands, begin, app_main}

module _ {T W : Type 0} where
  -- A fact at the return of a step.
  abbrev pub AtReturn : {A : Type 0} → (A → Boot T W → Type 0) → Result A × Boot T W → Type 0
  AtReturn after (done a, b) = after a b
  AtReturn after (Startup.halted, b) = Unit

  record AtLast {A : Type 0} (m : Program T W A) (after : A → Boot T W → Type 0) : Type 0 where
    at : (b : Boot T W) → AtReturn after (m b)

  -- What holds whenever the last part of a program returns, holds when the program does.
  bind-AtLast :
      {A B : Type 0} (m : Program T W A) {f : A → Program T W B} {after : B → Boot T W → Type 0}
      → ((a : A) → AtLast (f a) after)
      → AtLast (m >>= f) after
  unfolding ◌>>=◌
  bind-AtLast {A = A} m {f = f} {after = after} last = record { at = λ b. onwards (m b) }
    where
      onwards : (r : Result A × Boot T W) → AtReturn after (continue r.0 f r.1)
      onwards (done a, b') = (last a).at b'
      onwards (Startup.halted, b') = tt

module _ (B : Board) (I : Idf (B.World)) (K : Kconfig) (window : B.Timer → B.World → Option ℕ)
    (doc : IsDocumented B window) (elapse : ℕ → B.World → B.World) (clock : IsClock B window elapse)
    (small : K.trial_timeout_s < 2 ^ 32) where
  open B use {World, Timer}

  abbrev pub state : Boot (Option Timer) World → State B
  state b = record { timer = b.own; world = b.world }

  abbrev seconds_left : ℕ
  seconds_left = K.trial_timeout_s * 1000000

  -- The image is on trial, the countdown has the seconds of the banner, and the deeds take it on as
  -- far as the time that passes.
  abbrev pub Promises : List Deed → ℕ → Shown → Boot (Option Timer) World → Type 0
  Promises deeds n (banner seconds) b =
      (is_on_trial B b.world ≡ true)
      × (countdown B K window doc (state b) ≡ some (seconds * 1000000))
      × IsDue B K window doc elapse clock n (run B K window doc elapse clock deeds (state b))
  Promises deeds n ready b = Unit

  esp_ok_of_is_ok : (err : Err) → is_ok err ≡ true → err ≡ esp_ok
  esp_ok_of_is_ok err h = ground arith

  module _ (deeds : List Deed) (n : ℕ)
      (total : elapsed deeds + n ≡ K.trial_timeout_s * 1000000) where
    last-Promises :
        (b : Boot (Option Timer) World)
        → AtReturn (Promises deeds n) (
            (call_own Startup.trial_begin (begin B I K) >>= λ err.
            pure (if is_ok err then banner K.trial_timeout_s else ready))
              b)
    unfolding ◌>>=◌ call_own pure begin
    last-Promises b =
        let s : State B = record { timer = b.own; world = b.world } in
        elim (Bool-cases (is_ok (trial_begin B K 0 s).0)) [
          | inl ok ↦
              let began = esp_ok_of_is_ok _ ok in
              let (before, idle, left, trial) = begin-countdown B K window doc 0 s small began in
              rw ok
                (trial, left, run-IsDue B K window doc elapse clock 0 s deeds n small began total)
          | inr bad ↦ rw bad tt
        ]

    AtLast-app_main :
        (connect_wifi : Bool) → AtLast (app_main B I K connect_wifi) (Promises deeds n)
    unfolding app_main
    AtLast-app_main connect_wifi = bind-AtLast (init_nvs I) (λ _. bind-AtLast (init_netif I) (λ _.
        bind-AtLast (checked Startup.connect I.example_connect) (λ _.
          bind-AtLast (spare_no_power I connect_wifi) (λ _.
            bind-AtLast (checked Startup.new_repl I.console_new_repl_uart) (λ _.
              bind-AtLast (register_commands B I K) (λ _.
                bind-AtLast (checked Startup.start_repl I.console_start_repl)
                  (λ _. record { at = last-Promises })))))))

    -- If `app_main` shows the banner, it is true: the image is on trial, and the countdown has just
    -- the seconds that the banner names; and whatever time passes from then on and whatever calls of
    -- `ota_api_trial_begin` and `ota_api_trial_reject` are made, in any order, the device has gone
    -- back, or the countdown has exactly the rest of these seconds to go, and its callback asks for
    -- the rollback. The board and the clock are taken to do what is documented, and the seconds of
    -- the configuration to fit 32 bits.
    pub app_main-Promises :
        (connect_wifi : Bool) (b : Boot (Option Timer) World)
        → AtReturn (Promises deeds n) (app_main B I K connect_wifi b)
    app_main-Promises connect_wifi b = (AtLast-app_main connect_wifi).at b
