-- ===== src/Basic/Startup/Laws.antt =====
-- examples/basic/main/main.c, `app_main`: the config that the update is started with.
use esp32s3_ota_api.Prelude.{ℕ, ◌≡◌, refl, true, Option, none, some, [], ◌∷◌}
use esp32s3_ota_api.Prelude.CString.{CString}
use esp32s3_ota_api.Err.{is_ok}
use esp32s3_ota_api.Config.{Kconfig, Config, config_default}
use esp32s3_ota_api.System.{Platform}
use esp32s3_ota_api.Update.{update}
use esp32s3_ota_api.Task
use esp32s3_ota_api.Task.{Rtos, put, finish}
use esp32s3_ota_api.Task.Laws.{start_task-HandsOver, ota_task-copy}
use esp32s3_ota_api.Startup.{connect, start_task, Idf, Boot, pure}
use esp32s3_ota_api.Startup.Owns.{
  Returned, Owns, Owns-pure, Owns-bind, Owns-call_own, Owns-error_check, Owns-checked,
  Owns-init_nvs, Owns-init_netif, Owns-spare_no_power,
}
use esp32s3_ota_api.Basic.Startup.{Options, Outside, Own, get_sha256_of_partitions, start, app_main}
use esp32s3_ota_api.Startup.Order.{all_of, needs}
use esp32s3_ota_api.Startup.Rules.{Follows}
use esp32s3_ota_api.Startup.Network.{connected}
use esp32s3_ota_api.Basic.Startup.Order.{Leads-app_main}
use esp32s3_ota_api.Basic.Startup.Settings.{
  Configured, IsGiven, IsFound, Chosen, Fresh, Owns-configure, Owns-find_netif, Owns-choose_url,
}

module _ (P : Platform) (R : Rtos P) (I : Idf (P.World)) (out : Outside (P.World)) (K : Kconfig)
    (options : Options) where
  open P use {World}

  abbrev state : Own P R I out K options → World → Task.State P
  state own w = record {
    heap = own.heap;
    sys = record { shared = own.shared; world = w; trace = own.trace };
  }

  module _ (heap : ℕ → Option (Config World)) where
    -- One block more than before, which holds that config.
    abbrev pub Starts : Own P R I out K options → Type 0
    Starts own =
        (url : Option CString) × (netif : Option ℕ) × (copy : ℕ) × IsGiven P R I out K options
          options.url_from_stdin url
        × IsFound P R I out K options options.bind_if netif
        × (heap copy ≡ none)
        × (own.heap ≡ put P heap copy (some (Configured P R I out K options url netif)))
        × ((fuel : ℕ) (w : World)
            → Task.ota_task P K fuel copy (state own w)
              ≡ finish P
                  (update P K fuel (some (Configured P R I out K options url netif))
                    (state own w).sys)
                  heap)

    -- `malloc` gives out no block of that heap.
    module _ (fresh : (w : World) (a : ℕ) → (R.malloc w).0 ≡ some a → heap a ≡ none) where
      start-Starts :
          (own : Own P R I out K options) (w : World)
          → Chosen P R I out K options heap own
          → is_ok (start P R I out K options own w).0 ≡ true
          → Starts (start P R I out K options own w).1
      unfolding start
      start-Starts own w (netif, url, found, given_url, h) ok =
          let (copy, unused, held, _) =
            start_task-HandsOver P R K own.ota_config (state own w)
              (λ a given. rw h.1 (fresh w a given)) ok in
          let own' = (start P R I out K options own w).1 in
          let config = Configured P R I out K options url netif in
          let holds : own'.heap ≡ put P heap copy (some config) = rw (← h.0, ← h.1) held in
          let free : heap copy ≡ none = rw (← h.1) unused in
          (
            url,
            netif,
            copy,
            given_url,
            found,
            free,
            holds,
            λ fuel w'. rw holds (ota_task-copy P R K config fuel copy heap _ free),
          )

      Owns-app_main :
          Owns (Fresh P R I out K options heap) (app_main P R I out K options) (λ _. Starts)
      unfolding app_main get_sha256_of_partitions pure
      Owns-app_main = Owns-bind (Owns-init_nvs I (Fresh P R I out K options heap)) (λ _.
          Owns-bind (record { at = λ b h. h })
            (λ printed. Owns-bind (Owns-init_netif I (Fresh P R I out K options heap)) (λ _.
              Owns-bind (Owns-checked connect I.example_connect (Fresh P R I out K options heap))
                (λ _.
                  Owns-bind
                    (Owns-spare_no_power I (Fresh P R I out K options heap) options.connect_wifi)
                    (λ _. Owns-bind (Owns-configure P R I out K options heap) (λ _.
                      Owns-bind (Owns-find_netif P R I out K options heap options.bind_if) (λ _.
                        Owns-bind (Owns-choose_url P R I out K options heap options.url_from_stdin)
                          (λ _.
                            Owns-bind
                              (Owns-call_own start_task (start P R I out K options)
                                (λ err own. is_ok err ≡ true → Starts own) start-Starts)
                              (λ err.
                                Owns-bind
                                  (Owns-error_check err (λ own. is_ok err ≡ true → Starts own)
                                    Starts (λ own ok h. h ok))
                                  (λ _. Owns-pure printed (λ _. Starts)))))))))))

  -- However the calls of `app_main` end, each is made only once what it needs has succeeded, and
  -- `ota_api_start_task` only with the network connected; the device halts only at a call that
  -- failed, where an interface that is not found and a URL of the build other than "FROM_STDIN"
  -- under the option for stdin count as failures. If `app_main` comes to its loop, the task has
  -- been created, over a new block of the heap that holds the default config but for the
  -- certificate and the check of the common name of the build, the interface with the name of the
  -- build if there is one, and the URL of the build or the line from stdin, which is empty for an
  -- empty input; and the task runs the update with just that config and gives the block back. It is
  -- taken that the config is the default at first, that no call was made before, and that `malloc`
  -- gives out no block of the heap.
  pub app_main-Starts :
      (b : Boot (Own P R I out K options) World)
      → b.calls ≡ []
      → b.own.ota_config ≡ config_default
      → ((w : World) (a : ℕ) → (R.malloc w).0 ≡ some a → b.own.heap a ≡ none)
      → Follows (needs []) (λ _. all_of (start_task ∷ connected)) (app_main P R I out K options b)
        × Returned (λ printed. Starts b.own.heap) (app_main P R I out K options b)
  app_main-Starts b none_yet default fresh = (
    (Leads-app_main P R I out K options).at b (rw none_yet refl, refl),
    (Owns-app_main b.own.heap fresh).at b (default, refl),
  )
