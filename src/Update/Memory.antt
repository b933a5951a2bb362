-- ===== src/Update/Memory.antt =====
-- src/ota-api.c, `ota_api_update`: the application's own memory, which a run does not know of.
use mathlib.Core.Path.{subst}
use mathlib.Core.Option.{some-injective}
use esp32s3_ota_api.Prelude.{
  Bool-cases, inl, inr, ◌≡◌, refl, sym, ap, ◌∙◌, ℕ, true, false, Option, none, some,
}
use esp32s3_ota_api.Prelude.CString.{CString}
use esp32s3_ota_api.Err.{Err, is_ok}
use esp32s3_ota_api.Config.{Kconfig, Config, Event, EventCb, is_during}
use esp32s3_ota_api.System.{Platform, OtaConfig, Sys, external}
use esp32s3_ota_api.Report.{dispatch_event}
use esp32s3_ota_api.System.Effects.{external-world}
use esp32s3_ota_api.Update.{run_update, release, notify, announce, update}
use esp32s3_ota_api.Update.Claim.{taken, update-free}
use esp32s3_ota_api.Update.Kept.{IsKept}
use esp32s3_ota_api.Update.Keeps.{run-keeps}
use esp32s3_ota_api.Update.Refinement.{outcome, notify-result}

-- What `read` reads is touched neither by esp_https_ota nor, before the outcome, by the callback.
pub record IsUntouched (P : Platform) (config : Config (P.World)) {A : Type 0} (read : P.World → A)
    : Type 0 where
  pub by_begin : (c : OtaConfig) (w : P.World) → read (P.https_ota_begin c w).1 ≡ read w
  pub by_img_desc : (h : P.Handle) (w : P.World) → read (P.https_ota_get_img_desc h w).1 ≡ read w
  pub by_perform : (h : P.Handle) (w : P.World) → read (P.https_ota_perform h w).1 ≡ read w
  pub by_abort : (h : P.Handle) (w : P.World) → read (P.https_ota_abort h w).1 ≡ read w
  pub by_finish : (h : P.Handle) (w : P.World) → read (P.https_ota_finish h w).1 ≡ read w
  pub by_callback :
      (cb : EventCb (P.World))
      → config.event_cb ≡ some cb
      → (event : Event) → is_during event ≡ true
      → (w : P.World) → read (cb event config.user_ctx w).1 ≡ read w

module _ (P : Platform) (K : Kconfig) (config : Config (P.World)) {A : Type 0} (read : P.World → A)
    (apart : IsUntouched P config read) where
  open P use {World}

  -- What the outcome finds.
  abbrev pub Reads : A → Err × Sys World → Type 0
  Reads v r = (s : Sys World) × (r ≡ notify P K config r.0 s) × (read s.world ≡ v)

  read-IsKept : (v : A) → IsKept P config (λ s. read s.world ≡ v)
  unfolding external
  read-IsKept v = record {
    in_begin = λ c s h. apart.by_begin c s.world ∙ h;
    in_img_desc = λ d s h. apart.by_img_desc d s.world ∙ h;
    in_perform = λ d s h. apart.by_perform d s.world ∙ h;
    in_abort = λ d s h. apart.by_abort d s.world ∙ h;
    in_finish = λ d s h. apart.by_finish d s.world ∙ h;
    in_callback =
        λ cb present event during s h. apart.by_callback cb present event during s.world ∙ h;
    in_silence = λ silent event during s h. h;
    in_mark = λ m e q s h. h;
  }

  announce-Reads :
      (v : A) (o : Option (Err × Sys World)) (r : Err × Sys World)
      → ((x : Err × Sys World) → o ≡ some x → read x.1.world ≡ v)
      → announce P K config o ≡ some r
      → Reads v r
  unfolding announce release
  announce-Reads v none r ran e = cc
  announce-Reads v (some (err, s)) r ran e =
      let told : Reads v (notify P K config err (release s)) = (
        release s,
        ap (λ x. notify P K config x (release s)) (sym (notify-result P K config err (release s))),
        ran (err, s) refl,
      ) in
      subst (Reads v) (some-injective _ _ e) told

  pub update-Reads :
      (fuel : ℕ) (url : CString) (s : Sys World) (r : Err × Sys World)
      → config.url ≡ some url
      → s.shared.slot.running ≡ false
      → update P K fuel (some config) s ≡ some r
      → Reads (read s.world) r
  update-Reads fuel url s r given free e =
      announce-Reads (read s.world) (run_update P K fuel url config (taken s)) r
        (λ x ran.
          run-keeps P config (λ t. read t.world ≡ read s.world) (read-IsKept (read s.world)) K fuel
            url (taken s) x refl ran)
        (sym (update-free P K config fuel url s given free) ∙ e)

  notify-silent :
      (err : Err) (s : Sys World)
      → config.event_cb ≡ none
      → (notify P K config err s).1.world ≡ s.world
  unfolding notify dispatch_event
  notify-silent err s silent = elim (Bool-cases (is_ok err)) [
    | inl ok ↦ rw (ok, notify) (rw (silent, dispatch_event) refl)
    | inr bad ↦ rw (bad, notify) (rw (silent, dispatch_event) refl)
  ]

  pub update-silent :
      (fuel : ℕ) (url : CString) (s : Sys World) (r : Err × Sys World)
      → config.url ≡ some url
      → config.event_cb ≡ none
      → s.shared.slot.running ≡ false
      → update P K fuel (some config) s ≡ some r
      → read r.1.world ≡ read s.world
  update-silent fuel url s r given silent free e =
      let (s', told, same) = update-Reads fuel url s r given free e in
      ap (λ (x : Err × Sys World). read x.1.world) told
      ∙ ap read (notify-silent r.0 s' silent)
      ∙ same

  notify-told :
      (err : Err) (s : Sys World) (cb : EventCb World)
      → config.event_cb ≡ some cb
      → (notify P K config err s).1.world ≡ (cb (outcome err) config.user_ctx s.world).1
  unfolding notify dispatch_event
  notify-told err s cb present = elim (Bool-cases (is_ok err)) [
    | inl ok ↦ rw (ok, notify) (rw (present, dispatch_event) (external-world P _ _ s))
    | inr bad ↦ rw (bad, notify) (rw (present, dispatch_event) (external-world P _ _ s))
  ]

  -- The world in which the callback hears the outcome, and what it makes of that.
  pub update-told :
      (fuel : ℕ) (url : CString) (s : Sys World) (r : Err × Sys World) (cb : EventCb World)
      → config.url ≡ some url
      → config.event_cb ≡ some cb
      → s.shared.slot.running ≡ false
      → update P K fuel (some config) s ≡ some r
      → (w : World) × (read w ≡ read s.world) × (r.1.world ≡ (cb (outcome r.0) config.user_ctx w).1)
  update-told fuel url s r cb given present free e =
      let (s', told, same) = update-Reads fuel url s r given free e in
      (s'.world, same, ap (λ (x : Err × Sys World). x.1.world) told ∙ notify-told r.0 s' cb present)
