-- ===== src/Basic/Startup/Order.antt =====
-- examples/basic/main/main.c, `app_main`: the order of its calls.
use esp32s3_ota_api.Prelude.{refl, Bool, true, false, Option, none, some, [], ◌∷◌, arith}
use esp32s3_ota_api.Prelude.CString.{CString}
use esp32s3_ota_api.Config.{Kconfig}
use esp32s3_ota_api.System.{Platform}
use esp32s3_ota_api.Task.{Rtos}
use esp32s3_ota_api.Startup.{
  nvs_init, netif_init, event_loop, connect, bind_netif, stdin_url, start_task, Idf, pure,
}
use esp32s3_ota_api.Startup.Order.{all_of, needs}
use esp32s3_ota_api.Startup.Rules.{
  Leads, Leads-pure, Leads-bind, Leads-call_own, Leads-error_check, Leads-checked, Leads-weaken,
}
use esp32s3_ota_api.Startup.Network.{
  connected, Leads-init_nvs, Leads-init_netif, Leads-spare_no_power,
}
use esp32s3_ota_api.Basic.Startup.{
  Options, Outside, get_sha256_of_partitions, configure, find_netif, bind, read_url, choose_url,
  start, app_main,
}

module _ (P : Platform) (R : Rtos P) (I : Idf (P.World)) (out : Outside (P.World)) (K : Kconfig)
    (options : Options) where
  Leads-onto_netif :
      (bind_if : Option CString)
      → Leads
          (needs [])
          (all_of connected)
          (bind P R I out K options bind_if)
          (λ _. all_of connected)
  unfolding bind
  Leads-onto_netif none = Leads-pure tt (λ _. all_of connected)
  Leads-onto_netif (some name) =
      Leads-bind
        (Leads-call_own bind_netif (find_netif P R I out K options name) connected
          (λ calls h. ground arith))
        (λ err.
          Leads-weaken (λ calls h. h) (λ _ calls h. ground arith)
            (Leads-error_check bind_netif connected err))

  Leads-choose_url :
      (from_stdin : Bool)
      → Leads
          (needs [])
          (all_of connected)
          (choose_url P R I out K options from_stdin)
          (λ _. all_of connected)
  unfolding choose_url
  Leads-choose_url false = Leads-pure tt (λ _. all_of connected)
  Leads-choose_url true =
      Leads-bind
        (Leads-call_own stdin_url (read_url P R I out K options) connected (λ calls h. refl))
        (λ err.
          Leads-weaken (λ calls h. h) (λ _ calls h. ground arith)
            (Leads-error_check stdin_url connected err))

  pub Leads-app_main :
      Leads
        (needs [])
        (all_of [])
        (app_main P R I out K options)
        (λ _. all_of (start_task ∷ connected))
  unfolding app_main get_sha256_of_partitions configure pure
  Leads-app_main = Leads-bind (Leads-init_nvs I refl refl []) (λ _.
      Leads-bind (record { at = λ b h. h })
        (λ printed. Leads-bind (Leads-init_netif I []) (λ _.
          Leads-bind
            (Leads-checked connect I.example_connect (event_loop ∷ netif_init ∷ nvs_init ∷ [])
              (λ calls h. ground arith))
            (λ _. Leads-bind (Leads-spare_no_power I options.connect_wifi (all_of connected)) (λ _.
              Leads-bind (record { at = λ b h. h })
                (λ _. Leads-bind (Leads-onto_netif options.bind_if) (λ _.
                  Leads-bind (Leads-choose_url options.url_from_stdin) (λ _.
                    Leads-bind
                      (Leads-call_own start_task (start P R I out K options) connected
                        (λ calls h. ground arith))
                      (λ err.
                        Leads-bind (Leads-error_check start_task connected err)
                          (λ _. Leads-pure printed (λ _. all_of (start_task ∷ connected))))))))))))
