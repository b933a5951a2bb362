-- ===== src/Lifecycle/Boot.antt =====
-- src/ota-api.c, `ota_api_update` on a power supply that fails: the boot partition.
mod Tests
use mathlib.Core.Path.{subst}
use mathlib.Core.Option
use mathlib.Core.Option.{some-injective}
use esp32s3_ota_api.Prelude.{
  ℕ, zero, suc, ◌+◌, ◌≤◌, ◌≡◌, ap, arith, [], refl, sym, ◌∙◌, ◌⊎◌, inl, inr, Bool, true, false,
  Option, none, some, if◌then◌else◌, Bool-cases, Option-cases,
}
use esp32s3_ota_api.Prelude.CString.{CString}
use esp32s3_ota_api.Err.{Err, esp_ok, esp_fail, is_ok}
use esp32s3_ota_api.Config.{Kconfig, Config, Event, EventCb}
use esp32s3_ota_api.System.{Platform, OtaConfig, Mark, Sys, mark, external}
use esp32s3_ota_api.Report.{dispatch_event}
use esp32s3_ota_api.Update.{run_update, release, notify, announce, update}
use esp32s3_ota_api.Update.Claim.{release-world, release-attempts, taken, update-free, update-busy}
use esp32s3_ota_api.Update.Outcome.{update-commits}
use esp32s3_ota_api.Update.Machine.Laws.{guarded}
use esp32s3_ota_api.Update.Machine.Objections.{attempts}
use esp32s3_ota_api.Update.Kept.{is_attempt, IsKept}
use esp32s3_ota_api.Update.Whole.{update-keeps}
use esp32s3_ota_api.Update.Boot.{IsSelector}
use esp32s3_ota_api.Lifecycle.Power.{
  cut, IsTorn, no_desc, begins, on_handle, cut-same, on_handle-same, powered_cb-same, powered,
  powered_cb, powered_config,
}

module _ (P : Platform) (K : Kconfig) (torn : P.World → P.World → P.World)
    (config : Config (P.World)) {A : Type 0} (boot : P.World → A) (target : A)
    (selector : IsSelector P config boot target) (tears : IsTorn torn boot) where
  open P use {World, Handle}

  module _ (old : A) where
    -- The partition is the old one or the one that was written.
    abbrev IsEither : World → Type 0
    IsEither w = (boot w ≡ old) ⊎ (boot w ≡ target)

    same-IsEither : (w v : World) → boot v ≡ boot w → IsEither w → IsEither v
    same-IsEither w v same (inl before) = inl (same ∙ before)
    same-IsEither w v same (inr after) = inr (same ∙ after)

    torn-IsEither : (w v : World) → IsEither w → IsEither v → IsEither (torn w v)
    torn-IsEither w v h h' = elim (tears.either w v) [
      | inl before ↦ same-IsEither w (torn w v) before h
      | inr after ↦ same-IsEither v (torn w v) after h'
    ]

    cut-IsEither :
        {B : Type 0} (b : B) (op : World → B × World) (w : World × ℕ)
        → ((v : World) → IsEither v → IsEither (op v).1)
        → IsEither w.0
        → IsEither (cut torn b op w).1.0
    unfolding cut
    cut-IsEither b op (w, zero) keeps h = h
    cut-IsEither b op (w, suc zero) keeps h = torn-IsEither w (op w).1 h (keeps w h)
    cut-IsEither b op (w, suc (suc n)) keeps h = keeps w h

    on_handle-IsEither :
        {B : Type 0} (b : B) (op : Handle → World → B × World)
        → ((h : Handle) (v : World) → IsEither v → IsEither (op h v).1)
        → (h : Option Handle) (w : World × ℕ) → IsEither w.0
        → IsEither (cut torn b (on_handle P torn b op h) w).1.0
    unfolding on_handle
    on_handle-IsEither b op keeps none w e =
        cut-IsEither b (on_handle P torn b op none) w (λ v i. i) e
    on_handle-IsEither b op keeps (some h) w e = cut-IsEither b (op h) w (keeps h) e

    finish-IsEither : (h : Handle) (w : World) → IsEither w → IsEither (P.https_ota_finish h w).1
    finish-IsEither h w e =
        let r = P.https_ota_finish h w in
        elim (Bool-cases (is_ok r.0)) [
          | inl ok ↦ inr (rw ok at (selector.by_finish h w))
          | inr bad ↦ same-IsEither w r.1 (rw bad at (selector.by_finish h w)) e
        ]

    -- If it is the new one, the run had come to finish the update.
    abbrev KeptAt : World → ℕ → Type 0
    KeptAt w attempted = (boot w ≡ old) ⊎ ((boot w ≡ target) × (1 ≤ attempted))

    abbrev Kept : Sys (World × ℕ) → Type 0
    Kept s = KeptAt s.world.0 (attempts s.trace)

    same-KeptAt : {w v : World} {n : ℕ} → boot v ≡ boot w → KeptAt w n → KeptAt v n
    same-KeptAt same (inl before) = inl (same ∙ before)
    same-KeptAt same (inr (after, some_made)) = inr (same ∙ after, some_made)

    KeptAt-IsEither : {w : World} {n : ℕ} → KeptAt w n → IsEither w
    KeptAt-IsEither (inl before) = inl before
    KeptAt-IsEither (inr (after, some_made)) = inr after

    IsEither-KeptAt : {w : World} (n : ℕ) → IsEither w → KeptAt w (1 + n)
    IsEither-KeptAt n (inl before) = inl before
    IsEither-KeptAt n (inr after) = inr (after, omega arith)

    mark-attempts :
        (m : Mark)
        → is_attempt m ≡ false
        → (s : Sys (World × ℕ)) → attempts (mark m s).trace ≡ attempts s.trace
    mark-attempts m quiet s = ground arith

    mark-Kept : (m : Mark) → is_attempt m ≡ false → (s : Sys (World × ℕ)) → Kept s → Kept (mark m s)
    mark-Kept m quiet s h = rw (mark-attempts m quiet s) h

    either-IsKept : IsKept (powered P torn) (powered_config P torn config) Kept
    unfolding external begins
    either-IsKept = record {
      in_begin = λ c s h.
          same-KeptAt
            (cut-same P torn boot (esp_fail, none) (begins P torn c) s.world tears
              (selector.by_begin c s.world.0))
            h;
      in_img_desc = λ d s h.
          same-KeptAt
            (on_handle-same P torn boot (esp_fail, no_desc) P.https_ota_get_img_desc tears d s.world
              (λ d. selector.by_img_desc d s.world.0))
            h;
      in_perform = λ d s h.
          same-KeptAt
            (on_handle-same P torn boot esp_fail P.https_ota_perform tears d s.world
              (λ d. selector.by_perform d s.world.0))
            h;
      in_abort = λ d s h.
          same-KeptAt
            (on_handle-same P torn boot esp_fail P.https_ota_abort tears d s.world
              (λ d. selector.by_abort d s.world.0))
            h;
      in_finish = λ d s h. IsEither-KeptAt (attempts s.trace) (
          on_handle-IsEither esp_fail P.https_ota_finish finish-IsEither d s.world
            (KeptAt-IsEither h));
      in_callback = λ cb present event during s h.
          same-KeptAt
            (powered_cb-same P torn boot config.user_ctx config.event_cb tears selector.by_callback
              cb present event s.world)
            h;
      in_silence = λ silent event during s h. h;
      in_mark = λ m quiet q s h. mark-Kept m quiet s h;
    }

    dispatch-Kept :
        (event : Event) (s : Sys (World × ℕ))
        → Kept s
        → Kept (dispatch_event (powered P torn) (powered_config P torn config) event s).1
    unfolding dispatch_event external
    dispatch-Kept event s h = elim (Option-cases (Option.map (powered_cb P torn) config.event_cb)) [
      | inl absent ↦ rw (absent, dispatch_event) h
      | inr (cb, present) ↦
          rw (present, dispatch_event)
            (same-KeptAt
              (powered_cb-same P torn boot config.user_ctx config.event_cb tears
                selector.by_callback cb present event s.world)
              h)
    ]

    release-Kept : (s : Sys (World × ℕ)) → Kept s → Kept (release s)
    release-Kept s h = rw (release-world s, release-attempts s) h

  -- Wherever in a run of `ota_api_update` the power fails: the boot partition is as it was before
  -- the run, or it is the one that was written and the run had come to esp_https_ota_finish,
  -- straight after a complete download whose last report met no objection. It is taken that just a
  -- successful esp_https_ota_finish sets the boot partition, and that it is set at once.
  pub update-IsEither :
      (fuel : ℕ) (url : CString) (s : Sys (World × ℕ)) (r : Err × Sys (World × ℕ))
      → config.url ≡ some url
      → s.trace ≡ []
      → update (powered P torn) K fuel (some (powered_config P torn config)) s ≡ some r
      → (boot r.1.world.0 ≡ boot s.world.0)
        ⊎ ((boot r.1.world.0 ≡ target) × (1 ≤ attempts r.1.trace) × (guarded r.1.trace ≡ true))
  update-IsEither fuel url s r given fresh e =
      let Q = powered P torn in
      let c = powered_config P torn config in
      let old = boot s.world.0 in
      let kept =
        update-keeps Q K c (Kept old) (either-IsKept old) (release-Kept old) (dispatch-Kept old)
          fuel url s r given (inl refl) (inl refl) e in
      elim kept [
        | inl before ↦ inl before
        | inr (after, some_made) ↦
            inr (after, some_made, (update-commits Q K c fuel url s r given fresh e).1)
      ]
