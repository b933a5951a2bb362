-- ===== src/Console/Lifetime/Heard.antt =====
-- examples/advanced/main/main.c: what the callback does to the flag and the buffer.
use esp32s3_ota_api.Prelude.{◌≡◌, refl, ap, inl, inr, true, false, arith, if◌then◌else◌, Bool-cases}
use esp32s3_ota_api.Err.{Err, is_ok}
use esp32s3_ota_api.Config.{Kconfig, Event, is_during}
use esp32s3_ota_api.System.{Platform}
use esp32s3_ota_api.Task.{Rtos}
use esp32s3_ota_api.Update.Refinement.{outcome}
use esp32s3_ota_api.Console.{Statics, Options, App, on_ota_event_cb}
use esp32s3_ota_api.Console.Commands.{IsMemory}

module _ (P : Platform) (A : App (P.World)) (R : Rtos P) (K : Kconfig) (options : Options)
    (memory : IsMemory P A R) where
  open P use {World}
  open A use {statics}

  pub during-pending :
      (event : Event) (w : World)
      → is_during event ≡ true
      → let v = statics (on_ota_event_cb P A event 0 w).1 in
        (v.ota_pending ≡ (statics w).ota_pending) × (v.ota_url ≡ (statics w).ota_url)
  unfolding on_ota_event_cb
  during-pending Event.started w h =
      let back = memory.read_back _ w in
      (ap (λ (x : Statics). x.ota_pending) back, ap (λ (x : Statics). x.ota_url) back)
  during-pending (Event.image_desc _) w h = (ground arith, ground arith)
  during-pending (Event.progress _) w h = (refl, refl)
  during-pending Event.succeeded w h = cc
  during-pending (Event.failed _) w h = cc

  pub outcome-pending :
      (err : Err) (w : World)
      → let v = statics (on_ota_event_cb P A (outcome err) 0 w).1 in
        (v.ota_pending ≡ (if is_ok err then (statics w).ota_pending else false))
        × (v.ota_url ≡ (statics w).ota_url)
  unfolding on_ota_event_cb
  outcome-pending err w = elim (Bool-cases (is_ok err)) [
    | inl ok ↦
        let same = memory.shut_down_apart w in
        rw ok (ap (λ (x : Statics). x.ota_pending) same, ap (λ (x : Statics). x.ota_url) same)
    | inr bad ↦
        let back = memory.read_back _ w in
        rw bad (ap (λ (x : Statics). x.ota_pending) back, ap (λ (x : Statics). x.ota_url) back)
  ]
