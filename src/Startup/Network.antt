-- ===== src/Startup/Network.antt =====
-- The rules for the storage and the network.
use esp32s3_ota_api.Prelude.{◌≡◌, refl, Bool, true, List, [], ◌∷◌, arith}
use esp32s3_ota_api.Err.{Err}
use esp32s3_ota_api.Startup.{
  Call, nvs_init, nvs_erase, netif_init, event_loop, connect, Idf, Program, pure, ◌>>◌, checked,
  silently, wants_erase, retry_nvs, init_nvs, init_netif, spare_no_power,
}
use esp32s3_ota_api.Startup.Order.{all_of, needs}
use esp32s3_ota_api.Startup.Rules.{
  Fact, Leads, adds, Leads-pure, Leads-bind, Leads-call, Leads-error_check, Leads-checked,
  Leads-silently, Leads-if, Leads-weaken,
}

freely :
    (needs : Call → List Call) (c : Call)
    → needs c ≡ []
    → (calls : List (Call × Err)) → all_of (needs c) calls ≡ true
freely needs c e calls = rw e refl

pub adds-before :
    (c : Call) (before : List Call) (err : Err) (calls : List (Call × Err))
    → adds c before err calls ≡ true
    → all_of before calls ≡ true
adds-before c before err calls h = ground arith

module _ {T W : Type 0} {needs : Call → List Call} (I : Idf W) (init_freely : needs nvs_init ≡ [])
    (erase_freely : needs nvs_erase ≡ []) where
  Leads-retry_nvs :
      (before : List Call)
      → Leads needs (all_of before) (retry_nvs {T = T} I) (adds nvs_init before)
  unfolding retry_nvs
  Leads-retry_nvs before =
      Leads-bind
        (Leads-checked nvs_erase I.nvs_flash_erase before
          (λ calls _. freely needs nvs_erase erase_freely calls))
        (λ _.
          Leads-weaken (λ calls h. h) (λ err calls h. ground arith)
            (Leads-call nvs_init I.nvs_flash_init (nvs_erase ∷ before)
              (λ calls _. freely needs nvs_init init_freely calls)))

  pub Leads-init_nvs :
      (before : List Call)
      → Leads needs (all_of before) (init_nvs {T = T} I) (λ _. all_of (nvs_init ∷ before))
  unfolding init_nvs
  Leads-init_nvs before =
      Leads-bind
        (Leads-call nvs_init I.nvs_flash_init before
          (λ calls _. freely needs nvs_init init_freely calls))
        (λ err.
          Leads-bind
            (Leads-if (wants_erase err) (retry_nvs I) (pure err) (adds nvs_init before err)
              (adds nvs_init before)
              (Leads-weaken (λ calls h. adds-before nvs_init before err calls h) (λ _ calls h. h)
                (Leads-retry_nvs before))
              (Leads-pure err (adds nvs_init before)))
            (λ err'. Leads-error_check nvs_init before err'))

module _ {T W : Type 0} {needs : Call → List Call} (I : Idf W) where
  pub Leads-spare_no_power :
      (connect_wifi : Bool) (before : Fact)
      → Leads needs before (spare_no_power {T = T} I connect_wifi) (λ _. before)
  unfolding spare_no_power
  Leads-spare_no_power connect_wifi before =
      Leads-if connect_wifi (silently I.wifi_set_ps_none) (pure tt) before (λ _. before)
        (Leads-silently I.wifi_set_ps_none before) (Leads-pure tt (λ _. before))

-- The network is up.
abbrev pub connected : List Call
connected = connect ∷ event_loop ∷ netif_init ∷ nvs_init ∷ []

module _ {T W : Type 0} (I : Idf W) (console : List Call) where
  pub Leads-init_netif :
      Leads
        (needs console)
        (all_of (nvs_init ∷ []))
        (init_netif {T = T} I)
        (λ _. all_of (event_loop ∷ netif_init ∷ nvs_init ∷ []))
  unfolding init_netif
  Leads-init_netif =
      Leads-bind (Leads-checked netif_init I.netif_init (nvs_init ∷ []) (λ calls h. h)) (λ _.
        Leads-checked event_loop I.event_loop_create_default (netif_init ∷ nvs_init ∷ [])
          (λ calls h. ground arith))

  -- What the examples with a console have in common, before the rest of their `app_main`.
  pub Leads-onto_network :
      {A : Type 0} (connect_wifi : Bool) {m : Program T W A} {after : A → Fact}
      → Leads (needs console) (all_of connected) m after
      → Leads
          (needs console)
          (all_of [])
          (do
            init_nvs I
            init_netif I
            checked connect I.example_connect
            spare_no_power I connect_wifi
            m)
          after
  Leads-onto_network connect_wifi l = Leads-bind (Leads-init_nvs I refl refl []) (λ _.
      Leads-bind Leads-init_netif (λ _.
        Leads-bind
          (Leads-checked connect I.example_connect (event_loop ∷ netif_init ∷ nvs_init ∷ [])
            (λ calls h. ground arith))
          (λ _. Leads-bind (Leads-spare_no_power I connect_wifi (all_of connected)) (λ _. l))))
