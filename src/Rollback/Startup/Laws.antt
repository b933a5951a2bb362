-- ===== src/Rollback/Startup/Laws.antt =====
-- examples/rollback/main/main.c, `app_main`: which images come to the update, and how the run ends.
use esp32s3_ota_api.Prelude.{
  [], ◌⊎◌, ◌≡◌, refl, ℕ, Bool, true, false, Option, some, inl, inr, Bool-cases, arith,
  if◌then◌else◌,
}
use esp32s3_ota_api.Err.{Err, is_ok}
use esp32s3_ota_api.Config.{Kconfig}
use esp32s3_ota_api.System.{Platform, Sys}
use esp32s3_ota_api.Update.{update}
use esp32s3_ota_api.Update.Termination.{IsFinite, update-Returns}
use esp32s3_ota_api.Trial.{is_on_trial}
use esp32s3_ota_api.Trial.Laws.{IsDocumented}
use esp32s3_ota_api.Startup
use esp32s3_ota_api.Startup.{
  Call, Result, done, continue, Idf, Boot, Program, pure, halt, ◌>>=◌, ◌>>◌, call_own, call,
  error_check, checked, init_netif, netif_init, event_loop, connect, nvs_init, init_nvs,
}
use esp32s3_ota_api.Rollback
use esp32s3_ota_api.Rollback.{goes_on, restarted, self_test, check_connection}
use esp32s3_ota_api.Rollback.SelfTest.{IsVouched, self_test-IsVouched}
use esp32s3_ota_api.Rollback.Startup.{
  Flash, board, End, restarts, stays, halts, rolls_back, Options, Own, ota_config, connect_network,
  conclude, concluded, to_sys, run_update, go_on, after_connection, app_main,
}
use esp32s3_ota_api.Startup.Order.{failed}
use esp32s3_ota_api.Trial
use esp32s3_ota_api.Trial.{trial_confirm}
use esp32s3_ota_api.Rollback.Verdict.{Reason, verdict-Reason}
use esp32s3_ota_api.Rollback.Startup.Network.{
  on_trial, IsApart, Known, connect_network-Known, Failed, connect_network-Failed,
}

module _ (P : Platform) (F : Flash (P.World)) (I : Idf (P.World)) where
  open P use {World}

  module _ (K : Kconfig) (options : Options) where
    -- An update of an image that is not on trial, and its result.
    abbrev Updated : ℕ → Bool → Sys World → Type 0
    Updated fuel ok s =
        (before : Sys World) × (err : Err) × (on_trial P F I before.world ≡ false)
        × (update P K fuel (some (ota_config P F I K options)) before ≡ some (err, s))
        × (is_ok err ≡ ok)

    abbrev pub Explains : ℕ → End → Sys World → Type 0
    Explains fuel restarts s = Updated fuel true s
    Explains fuel stays s = Updated fuel false s
    Explains fuel _ s = Unit

    -- Why a self-test leads to an end, and why the start does.
    abbrev pub TestedWhy : Bool → Err → Trial.State (board F) → End → Type 0
    TestedWhy pending_verify connect_err s halts =
        (is_ok connect_err ≡ false) ⊎ (is_ok (trial_confirm (board F) s).0 ≡ false)
    TestedWhy pending_verify connect_err s rolls_back =
        (pending_verify ≡ true) × (is_ok connect_err ≡ false)
    TestedWhy pending_verify connect_err s _ = is_ok connect_err ≡ true

    abbrev pub Why : Result (Bool × Err) × Boot (Own P F I K options) World → End → Type 0
    Why (done (pending_verify, connect_err), b) end =
        TestedWhy pending_verify connect_err (record { timer = b.own.timer; world = b.world }) end
    Why (Startup.halted, b) end = (end ≡ halts) × (failed b.calls ≡ true)

    -- With enough fuel there is an end, which is explained.
    abbrev pub Ends : (End → Type 0) → (ℕ → Option (End × Sys World)) → Type 0
    Ends why run =
        (fuel : ℕ) × (end : End) × (s : Sys World) × (run fuel ≡ some (end, s))
        × Explains fuel end s
        × why end

    module _ (window : F.Timer → World → Option ℕ) (doc : IsDocumented (board F) window)
        (apart : IsApart P F I) (left : World → ℕ)
        (finite : IsFinite P (ota_config P F I K options) left) where
      run_update-Ends :
          (why : End → Type 0) (own : Own P F I K options) (w : World)
          → on_trial P F I w ≡ false
          → why restarts
          → why stays
          → Ends why (λ fuel. run_update P F I K options fuel own w)
      unfolding run_update concluded conclude
      run_update-Ends why own w off on_success on_failure =
          let w' = if options.connect_wifi then I.wifi_set_ps_none w else w in
          let s = to_sys P F I K options own w' in
          let still : on_trial P F I w' ≡ false = ground (arith, off, apart.by_wifi w) in
          let (fuel, ran) = update-Returns P (ota_config P F I K options) left finite K s in
          let ((err, s'), ends) = ran in
          elim (Bool-cases (is_ok err)) [
            | inl ok ↦
                let explained : Explains fuel restarts s' = (s, err, still, ends, ok) in
                (fuel, restarts, s', rw (ends, concluded) (rw ok refl), explained, on_success)
            | inr bad ↦
                let explained : Explains fuel stays s' = (s, err, still, ends, bad) in
                (fuel, stays, s', rw (ends, concluded) (rw bad refl), explained, on_failure)
          ]

      go_on-Ends :
          (own : Own P F I K options) (pending_verify : Bool) (connect_err : Err)
          (t0 : Trial.State (board F)) (verdict : Rollback.Boot (board F))
          → IsVouched (board F) K window doc connect_err verdict
          → Reason (board F) pending_verify connect_err t0 verdict
          → Ends
              (TestedWhy pending_verify connect_err t0)
              (λ fuel. go_on P F I K options fuel own verdict)
      unfolding go_on
      go_on-Ends own pending_verify connect_err t0 (goes_on t) h ok =
          run_update-Ends (TestedWhy pending_verify connect_err t0) (record own { timer = t.timer })
            t.world h.1 ok ok
      go_on-Ends own pending_verify connect_err t0 (Rollback.halted t) h reason =
          (0, halts, to_sys P F I K options own t.world, refl, tt, reason)
      go_on-Ends own pending_verify connect_err t0 (restarted w) h reason =
          (0, rolls_back, to_sys P F I K options own w, refl, tt, reason)

      after_connection-Ends :
          (r : Result (Bool × Err) × Boot (Own P F I K options) World)
          → Known P F I K options r
          → Failed P F I K options r
          → Ends (Why r) (λ fuel. after_connection P F I K options fuel r)
      unfolding after_connection
      after_connection-Ends (done (pending_verify, connect_err), b) known _ =
          let t0 : Trial.State (board F) = record { timer = b.own.timer; world = b.world } in
          go_on-Ends b.own pending_verify connect_err t0 _
            (self_test-IsVouched (board F) K window doc pending_verify connect_err t0 known)
            (verdict-Reason (board F) pending_verify connect_err t0)
      after_connection-Ends (Startup.halted, b) known at_failure =
          (0, halts, to_sys P F I K options b.own b.world, refl, tt, (refl, at_failure))

      -- The run of `app_main` comes to an end: in a restart after an update that succeeded, in the
      -- loop after one that failed, halted, or in the reboot into the previous image. In the first
      -- two there is a network, and the update ran to that result from a state in which the image
      -- is not on trial. It halts only if the latest call of the start failed, there is no network,
      -- or the confirmation failed; and it goes back only with an image on trial and without a
      -- network. It is taken that no call was made before, that each chunk after which more is to
      -- come leaves less to fetch and the callback fetches nothing back, that the board does what
      -- is documented, and that the calls for the network leave the partition table alone.
      pub app_main-Ends :
          (b : Boot (Own P F I K options) World)
          → b.calls ≡ []
          → Ends (Why (connect_network P F I K options b)) (λ fuel. app_main P F I K options fuel b)
      unfolding app_main
      app_main-Ends b fresh =
          after_connection-Ends (connect_network P F I K options b)
            (connect_network-Known P F I K options apart b)
            (connect_network-Failed P F I K options b fresh)
