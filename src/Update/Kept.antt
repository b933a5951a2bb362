-- ===== src/Update/Kept.antt =====
-- src/ota-api.c: what a property of the state has to survive to last through a run.
use esp32s3_ota_api.Prelude.{◌≡◌, Bool, true, false, none, some}
use esp32s3_ota_api.Err.{esp_ok}
use esp32s3_ota_api.Config.{Config, Event, EventCb, is_during}
use esp32s3_ota_api.System.{
  Platform, OtaConfig, Mark, Sys, mark, external, begun, dispatched, described, performed, aborted,
  finished,
}

abbrev pub is_attempt : Mark → Bool
is_attempt (finished _) = true
is_attempt _ = false

abbrev pub is_event : Mark → Bool
is_event (dispatched _ _) = true
is_event _ = false

-- What keeps `I`: each call into the code outside that a run makes before its outcome, and each
-- mark.
pub record IsKept (P : Platform) (config : Config (P.World)) (I : Sys (P.World) → Type 0)
    : Type 0 where
  pub in_begin :
      (c : OtaConfig) (s : Sys (P.World))
      → I s
      → I (external P (P.https_ota_begin c) (λ r. begun r.0) s).1
  pub in_img_desc :
      (h : P.Handle) (s : Sys (P.World))
      → I s
      → I (external P (P.https_ota_get_img_desc h) (λ r. described r.0) s).1
  pub in_perform :
      (h : P.Handle) (s : Sys (P.World))
      → I s
      → I (external P (P.https_ota_perform h) performed s).1
  pub in_abort :
      (h : P.Handle) (s : Sys (P.World))
      → I s
      → I (external P (P.https_ota_abort h) (λ _. aborted) s).1
  pub in_finish :
      (h : P.Handle) (s : Sys (P.World)) → I s → I (external P (P.https_ota_finish h) finished s).1
  pub in_callback :
      (cb : EventCb (P.World))
      → config.event_cb ≡ some cb
      → (event : Event) → is_during event ≡ true
      → (s : Sys (P.World)) → I s
      → I (external P (cb event config.user_ctx) (dispatched event) s).1
  pub in_silence :
      config.event_cb ≡ none
      → (event : Event) → is_during event ≡ true
      → (s : Sys (P.World)) → I s
      → I (mark (dispatched event esp_ok) s)
  pub in_mark :
      (m : Mark)
      → is_attempt m ≡ false
      → is_event m ≡ false
      → (s : Sys (P.World)) → I s
      → I (mark m s)
