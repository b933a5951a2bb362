-- ===== src/Rollback/Startup/Network.antt =====
-- examples/rollback/main/main.c, `app_main` up to the connection: what is known of the image.
use esp32s3_ota_api.Prelude.{[], ◌∷◌, ◌≡◌, refl, ◌∙◌, Bool, true, inl, inr, Bool-cases, arith}
use esp32s3_ota_api.Err.{Err, is_ok}
use esp32s3_ota_api.Config.{Kconfig}
use esp32s3_ota_api.System.{Platform}
use esp32s3_ota_api.Trial.{is_on_trial}
use esp32s3_ota_api.Startup
use esp32s3_ota_api.Startup.{
  Call, Result, done, continue, Idf, Boot, Program, pure, halt, ◌>>=◌, ◌>>◌, call_own, call,
  error_check, checked, init_netif, netif_init, event_loop, connect, init_nvs, nvs_init,
}
use esp32s3_ota_api.Rollback.Startup.{Flash, board, Options, Own, connect_network}
use esp32s3_ota_api.Startup.Order.{all_of, failed, needs}
use esp32s3_ota_api.Startup.Rules.{Follows, Leads, Leads-bind, Leads-call}
use esp32s3_ota_api.Startup.Network.{Leads-init_nvs, Leads-init_netif}

module _ (P : Platform) (F : Flash (P.World)) (I : Idf (P.World)) where
  open P use {World}

  abbrev pub on_trial : World → Bool
  on_trial w = is_on_trial (board F) w

  -- The network and the partition table are apart.
  pub record IsApart : Type 0 where
    pub by_netif_init : (w : World) → on_trial (I.netif_init w).1 ≡ on_trial w
    pub by_event_loop : (w : World) → on_trial (I.event_loop_create_default w).1 ≡ on_trial w
    pub by_connect : (w : World) → on_trial (I.example_connect w).1 ≡ on_trial w
    pub by_wifi : (w : World) → on_trial (I.wifi_set_ps_none w) ≡ on_trial w

  module _ {T : Type 0} where
    -- Whether the image is on trial is as it was, if the program goes on.
    abbrev Left : {A : Type 0} → Boot T World → Result A × Boot T World → Type 0
    Left b (done a, b') = on_trial b'.world ≡ on_trial b.world
    Left b (Startup.halted, b') = Unit

    checked-Left :
        (c : Call) (op : World → Err × World)
        → ((w : World) → on_trial (op w).1 ≡ on_trial w)
        → (b : Boot T World) → Left b (checked c op b)
    unfolding checked call call_own error_check pure halt ◌>>=◌
    checked-Left c op keeps b = elim (Bool-cases (is_ok (op b.world).0)) [
      | inl ok ↦ rw (ok, checked) (keeps b.world)
      | inr bad ↦ rw (bad, checked) tt
    ]

    bind-Left :
        {A B : Type 0} (m : Program T World A) (f : A → Program T World B) (b : Boot T World)
        → Left b (m b)
        → ((a : A) (b' : Boot T World) → Left b' (f a b'))
        → Left b ((m >>= f) b)
    unfolding ◌>>=◌
    bind-Left {A = A} {B = B} m f b h k = onwards (m b) h
      where
        further :
            (b' : Boot T World) (r : Result B × Boot T World)
            → on_trial b'.world ≡ on_trial b.world
            → Left b' r
            → Left b r
        further b' (done a, b'') h k = k ∙ h
        further b' (Startup.halted, b'') h k = tt

        onwards : (r : Result A × Boot T World) → Left b r → Left b (continue r.0 f r.1)
        onwards (done a, b') h = further b' (f a b') h (k a b')
        onwards (Startup.halted, b') h = tt

    init_netif-Left : IsApart → (b : Boot T World) → Left b (init_netif I b)
    unfolding init_netif
    init_netif-Left apart b =
        bind-Left _ _ b (checked-Left netif_init I.netif_init apart.by_netif_init b)
          (λ _ b'. checked-Left event_loop I.event_loop_create_default apart.by_event_loop b')

  module _ (K : Kconfig) (options : Options) where
    -- What is known at the connection.
    abbrev pub Known : Result (Bool × Err) × Boot (Own P F I K options) World → Type 0
    Known (done (pending_verify, connect_err), b) = on_trial b.world ≡ pending_verify
    Known (Startup.halted, b) = Unit

    pub connect_network-Known :
        IsApart → (b : Boot (Own P F I K options) World) → Known (connect_network P F I K options b)
    unfolding connect_network ◌>>=◌ pure call call_own
    connect_network-Known apart b = from (init_nvs I b)
      where
        past_netif :
            (pending : Bool) (r : Result (Unit {0}) × Boot (Own P F I K options) World)
            (b' : Boot (Own P F I K options) World)
            → on_trial b'.world ≡ pending
            → Left b' r
            → Known
                (continue r.0 (λ _. call connect I.example_connect >>= λ e. pure (pending, e)) r.1)
        past_netif pending (done a, b'') b' e h = apart.by_connect b''.world ∙ h ∙ e
        past_netif pending (Startup.halted, b'') b' e h = tt

        from :
            (r : Result (Unit {0}) × Boot (Own P F I K options) World)
            → Known (
                continue r.0
                  (λ _. (λ b. pure (on_trial b.world) b) >>= λ pending.
                    init_netif I >> (call connect I.example_connect >>= λ e. pure (pending, e)))
                  r.1)
        from (done a, b') =
            past_netif (on_trial b'.world) (init_netif I b') b' refl (init_netif-Left apart b')
        from (Startup.halted, b') = tt

    Leads-connect_network :
        Leads (needs []) (all_of []) (connect_network P F I K options) (λ _. all_of [])
    unfolding connect_network pure
    Leads-connect_network = Leads-bind (Leads-init_nvs I refl refl []) (λ _.
        Leads-bind (record { at = λ b h. h })
          (λ pending. Leads-bind (Leads-init_netif I []) (λ _.
            Leads-bind
              (Leads-call connect I.example_connect (event_loop ∷ netif_init ∷ nvs_init ∷ [])
                (λ calls h. ground arith))
              (λ err. record { at = λ b h. (h.0, refl) }))))

    -- The start halts only at a call that failed.
    abbrev pub Failed : Result (Bool × Err) × Boot (Own P F I K options) World → Type 0
    Failed (done _, b) = Unit
    Failed (Startup.halted, b) = failed b.calls ≡ true

    pub connect_network-Failed :
        (b : Boot (Own P F I K options) World)
        → b.calls ≡ []
        → Failed (connect_network P F I K options b)
    connect_network-Failed b fresh =
        from (connect_network P F I K options b) (Leads-connect_network.at b (rw fresh refl, refl))
      where
        from :
            (r : Result (Bool × Err) × Boot (Own P F I K options) World)
            → Follows (needs []) (λ _. all_of []) r
            → Failed r
        from (done _, b') h = tt
        from (Startup.halted, b') h = h.1
