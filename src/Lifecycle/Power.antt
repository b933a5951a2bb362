-- ===== src/Lifecycle/Power.antt =====
-- src/ota-api.c on a power supply that fails: a platform on which only so many calls get through.
use mathlib.Core.Path.{subst}
use mathlib.Core.Option
use mathlib.Core.Option.{some-injective}
use esp32s3_ota_api.Prelude.{
  ℕ, zero, suc, ◌≡◌, refl, Bool, true, false, Option, none, some, [], ◌∙◌, ◌⊎◌, inl, inr,
}
use esp32s3_ota_api.Prelude.Int.{pos}
use esp32s3_ota_api.Err.{Err, esp_ok, esp_fail, is_ok, is_in_progress}
use esp32s3_ota_api.Config.{AppDesc, Config, Event, EventCb}
use esp32s3_ota_api.System.{Platform, OtaConfig}
use esp32s3_ota_api.Update.OnTrial.{IsWriter, IsTame}

-- A call, while the power lasts for `n` more: the last of these is not made but torn, and `torn`
-- tells what is left of it, from the world before it and the one that it would have led to. Once the
-- power is gone nothing changes any more. What the code makes of the answer does not matter then.
unfoldable pub cut : {W A : Type 0} → (W → W → W) → A → (W → A × W) → W × ℕ → A × (W × ℕ)
cut torn a op (w, zero) = (a, (w, zero))
cut torn a op (w, suc zero) = (a, (torn w (op w).1, zero))
cut torn a op (w, suc (suc n)) = let (x, w') = op w in (x, (w', suc n))

-- What is read after a torn call is as before it, or as it would have been after it.
pub record IsTorn {W B : Type 0} (torn : W → W → W) (read : W → B) : Type 0 where
  pub either : (w v : W) → (read (torn w v) ≡ read w) ⊎ (read (torn w v) ≡ read v)

torn-same :
    {W B : Type 0} (torn : W → W → W) (read : W → B)
    → IsTorn torn read
    → (w v : W) → read v ≡ read w
    → read (torn w v) ≡ read w
torn-same torn read tears w v same = elim (tears.either w v) [
  | inl before ↦ before
  | inr after ↦ after ∙ same
]

abbrev pub no_desc : AppDesc
no_desc = record { project_name = []; version = []; date = []; time = [] }

module _ (P : Platform) (torn : P.World → P.World → P.World) where
  open P use {World, Handle}

  unfoldable pub begins : OtaConfig → World → (Err × Option Handle) × World
  begins c w = let ((err, h), w') = P.https_ota_begin c w in ((err, some h), w')

  -- A call on a handle, which is there unless the power was gone when it was asked for.
  unfoldable pub on_handle :
      {A : Type 0} → A → (Handle → World → A × World) → Option Handle → World → A × World
  on_handle a op none w = (a, w)
  on_handle a op (some h) w = op h w

  unfoldable pub asked_of : {A : Type 0} → A → (Handle → World → A) → Option Handle → World × ℕ → A
  asked_of a op none w = a
  asked_of a op (some h) (w, n) = op h w

  abbrev pub powered : Platform
  powered = record {
    World = World × ℕ;
    Handle = Option Handle;
    net = P.net;
    meanwhile = λ w. P.meanwhile w.0;
    https_ota_begin = λ c. cut torn (esp_fail, none) (begins c);
    https_ota_get_img_desc = λ h.
        cut torn (esp_fail, no_desc) (on_handle (esp_fail, no_desc) P.https_ota_get_img_desc h);
    https_ota_get_image_size = asked_of (pos 0) P.https_ota_get_image_size;
    https_ota_perform = λ h. cut torn esp_fail (on_handle esp_fail P.https_ota_perform h);
    https_ota_is_complete_data_received = asked_of false P.https_ota_is_complete_data_received;
    https_ota_get_image_len_read = asked_of (pos 0) P.https_ota_get_image_len_read;
    https_ota_abort = λ h. cut torn esp_fail (on_handle esp_fail P.https_ota_abort h);
    https_ota_finish = λ h. cut torn esp_fail (on_handle esp_fail P.https_ota_finish h);
    timer_get_time = λ w. P.timer_get_time w.0;
  }

  abbrev pub powered_cb : EventCb World → EventCb (World × ℕ)
  powered_cb cb event user_ctx = cut torn esp_ok (cb event user_ctx)

  abbrev pub powered_config : Config World → Config (World × ℕ)
  powered_config config = record {
    url = config.url;
    cert_pem = config.cert_pem;
    skip_common_name_check = config.skip_common_name_check;
    bind_netif = config.bind_netif;
    task_stack_size = config.task_stack_size;
    task_priority = config.task_priority;
    event_cb = Option.map powered_cb config.event_cb;
    user_ctx = config.user_ctx;
    progress_interval_ms = config.progress_interval_ms;
    partial_download = config.partial_download;
    max_http_request_size = config.max_http_request_size;
  }

  -- What a call leaves as it is stays as it is if the power fails.
  pub cut-same :
      {A B : Type 0} (read : World → B) (a : A) (op : World → A × World) (w : World × ℕ)
      → IsTorn torn read
      → read (op w.0).1 ≡ read w.0
      → read (cut torn a op w).1.0 ≡ read w.0
  unfolding cut
  cut-same read a op (w, zero) tears h = refl
  cut-same read a op (w, suc zero) tears h = torn-same torn read tears w (op w).1 h
  cut-same read a op (w, suc (suc n)) tears h = h

  pub on_handle-same :
      {A B : Type 0} (read : World → B) (a : A) (op : Handle → World → A × World)
      → IsTorn torn read
      → (h : Option Handle) (w : World × ℕ) → ((h : Handle) → read (op h w.0).1 ≡ read w.0)
      → read (cut torn a (on_handle a op h) w).1.0 ≡ read w.0
  unfolding on_handle
  on_handle-same read a op tears none w same = cut-same read a (on_handle a op none) w tears refl
  on_handle-same read a op tears (some h) w same = cut-same read a (op h) w tears (same h)

  pub powered_cb-same :
      {B : Type 0} (read : World → B) (user_ctx : ℕ) (given : Option (EventCb World))
      → IsTorn torn read
      → ((cb : EventCb World)
          → given ≡ some cb
          → (event : Event) (v : World) → read (cb event user_ctx v).1 ≡ read v)
      → (cb : EventCb (World × ℕ)) → Option.map powered_cb given ≡ some cb
      → (event : Event) (w : World × ℕ) → read (cb event user_ctx w).1.0 ≡ read w.0
  powered_cb-same read user_ctx none tears same cb e event w = cc
  powered_cb-same read user_ctx (some cb') tears same cb e event w =
      subst (λ (c : EventCb (World × ℕ)). read (c event user_ctx w).1.0 ≡ read w.0)
        (some-injective _ _ e)
        (cut-same read esp_ok (cb' event user_ctx) w tears (same cb' refl event w.0))

  module _ (on_trial fallback : World → Bool) (tears : IsTorn torn on_trial)
      (tears_fallback : IsTorn torn fallback) where
    pub powered-IsWriter :
        IsWriter P on_trial fallback → IsWriter powered (λ w. on_trial w.0) (λ w. fallback w.0)
    unfolding begins cut on_handle
    powered-IsWriter writer = record {
      begin_trial =
          λ c w. cut-same on_trial (esp_fail, none) (begins c) w tears (writer.begin_trial c w.0);
      img_desc_trial = λ h w.
          on_handle-same on_trial (esp_fail, no_desc) P.https_ota_get_img_desc tears h w
            (λ d. writer.img_desc_trial d w.0);
      perform_trial = λ h w.
          on_handle-same on_trial esp_fail P.https_ota_perform tears h w
            (λ d. writer.perform_trial d w.0);
      abort_trial = λ h w.
          on_handle-same on_trial esp_fail P.https_ota_abort tears h w
            (λ d. writer.abort_trial d w.0);
      finish_trial = λ h w.
          on_handle-same on_trial esp_fail P.https_ota_finish tears h w
            (λ d. writer.finish_trial d w.0);
      begin_fallback = λ c w on.
          cut-same fallback (esp_fail, none) (begins c) w tears_fallback
            (writer.begin_fallback c w.0 on);
      img_desc_fallback = λ h w on.
          on_handle-same fallback (esp_fail, no_desc) P.https_ota_get_img_desc tears_fallback h w
            (λ d. writer.img_desc_fallback d w.0 on);
      perform_refused = λ h w on. (
        (refused h w on).0,
        (refused h w on).1,
        on_handle-same fallback esp_fail P.https_ota_perform tears_fallback h w
            (λ d. (writer.perform_refused d w.0 on).2),
      );
      abort_fallback = λ h w on.
          on_handle-same fallback esp_fail P.https_ota_abort tears_fallback h w
            (λ d. writer.abort_fallback d w.0 on);
    }
      where
        refused :
            (h : Option Handle) (w : World × ℕ)
            → on_trial w.0 ≡ true
            → let err = (cut torn esp_fail (on_handle esp_fail P.https_ota_perform h) w).0 in
              (is_ok err ≡ false) × (is_in_progress err ≡ false)
        refused h (w, zero) on = (refl, refl)
        refused h (w, suc zero) on = (refl, refl)
        refused none (w, suc (suc n)) on = (refl, refl)
        refused (some h) (w, suc (suc n)) on =
            let (bad, over, kept) = writer.perform_refused h w on in (bad, over)

    pub powered-IsTame :
        (config : Config World)
        → IsTame P config on_trial fallback
        → IsTame powered (powered_config config) (λ w. on_trial w.0) (λ w. fallback w.0)
    powered-IsTame config tame = record {
      callback_same = λ cb present event w. (
        powered_cb-same on_trial config.user_ctx config.event_cb tears
            (λ c given e v. (tame.callback_same c given e v).0) cb present event w,
        powered_cb-same fallback config.user_ctx config.event_cb tears_fallback
            (λ c given e v. (tame.callback_same c given e v).1) cb present event w,
      );
    }
