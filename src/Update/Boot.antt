-- ===== src/Update/Boot.antt =====
-- src/ota-api.c, `ota_api_update`: what a run does to the boot partition.
pub mod Tests
use mathlib.Core.Path.{subst}
use mathlib.Core.Option.{some-injective}
use esp32s3_ota_api.Prelude.{
  ℕ, ◌≡◌, refl, sym, ◌∙◌, inl, inr, Bool, true, false, Option, none, some, List, [], ◌∷◌, arith,
  ◌==◌, if◌then◌else◌, Bool-cases, Option-cases,
}
use esp32s3_ota_api.Prelude.CString.{CString}
use esp32s3_ota_api.Err.{Err, is_ok}
use esp32s3_ota_api.Config.{Kconfig, Config, Event, EventCb}
use esp32s3_ota_api.System.{Platform, OtaConfig, Mark, Sys, mark, external, finished}
use esp32s3_ota_api.Report.{dispatch_event}
use esp32s3_ota_api.Update.{run_update, release, notify, announce, update}
use esp32s3_ota_api.Update.Claim.{taken, update-free, update-busy}
use esp32s3_ota_api.Update.Kept.{is_attempt, IsKept}
use esp32s3_ota_api.Update.Whole.{update-keeps}
use esp32s3_ota_api.Update.Machine.Laws.{commits}
use esp32s3_ota_api.Update.Outcome.{update-commits}

-- What esp_https_ota documents of the boot partition: an update that is finished with success sets
-- it to the `target` that was written, and nothing else touches it. The callback does not either.
pub record IsSelector (P : Platform) (config : Config (P.World)) {A : Type 0} (boot : P.World → A)
    (target : A) : Type 0 where
  pub by_begin : (c : OtaConfig) (w : P.World) → boot (P.https_ota_begin c w).1 ≡ boot w
  pub by_img_desc : (h : P.Handle) (w : P.World) → boot (P.https_ota_get_img_desc h w).1 ≡ boot w
  pub by_perform : (h : P.Handle) (w : P.World) → boot (P.https_ota_perform h w).1 ≡ boot w
  pub by_abort : (h : P.Handle) (w : P.World) → boot (P.https_ota_abort h w).1 ≡ boot w
  pub by_finish :
      (h : P.Handle) (w : P.World)
      → let (err, w') = P.https_ota_finish h w in boot w' ≡ (if is_ok err then target else boot w)
  pub by_callback :
      (cb : EventCb (P.World))
      → config.event_cb ≡ some cb
      → (event : Event) (w : P.World) → boot (cb event config.user_ctx w).1 ≡ boot w

module _ (P : Platform) (K : Kconfig) (config : Config (P.World)) {A : Type 0} (boot : P.World → A)
    (target : A) (selector : IsSelector P config boot target) where
  open P use {World}

  module _ (old : A) where
    -- By the images that were made bootable so far.
    abbrev chosen : ℕ → A
    chosen n = if n == 0 then old else target

    abbrev IsChosen : Sys World → Type 0
    IsChosen s = boot s.world ≡ chosen (commits s.trace)

    finish-IsChosen :
        (h : P.Handle) (s : Sys World)
        → IsChosen s
        → IsChosen (external P (P.https_ota_finish h) finished s).1
    unfolding external
    finish-IsChosen h s c =
        let r = P.https_ota_finish h s.world in
        let set = selector.by_finish h s.world in
        elim (Bool-cases (is_ok r.0)) [
          | inl ok ↦ rw (set, ok) (ground arith)
          | inr bad ↦ rw (set, bad) (ground (arith, c))
        ]

    mark-IsChosen :
        (m : Mark) → is_attempt m ≡ false → (s : Sys World) → IsChosen s → IsChosen (mark m s)
    mark-IsChosen m quiet s c = ground (arith, c)

    IsChosen-IsKept : IsKept P config IsChosen
    unfolding external
    IsChosen-IsKept = record {
      in_begin = λ c s h. selector.by_begin c s.world ∙ h;
      in_img_desc = λ d s h. selector.by_img_desc d s.world ∙ h;
      in_perform = λ d s h. selector.by_perform d s.world ∙ h;
      in_abort = λ d s h. selector.by_abort d s.world ∙ h;
      in_finish = finish-IsChosen;
      in_callback =
          λ cb present event during s h. selector.by_callback cb present event s.world ∙ h;
      in_silence = λ silent event during s h. h;
      in_mark = λ m quiet q s h. mark-IsChosen m quiet s h;
    }

    dispatch-IsChosen :
        (event : Event) (s : Sys World) → IsChosen s → IsChosen (dispatch_event P config event s).1
    unfolding dispatch_event external
    dispatch-IsChosen event s h = elim (Option-cases config.event_cb) [
      | inl absent ↦ rw (absent, dispatch_event) h
      | inr (cb, present) ↦
          rw (present, dispatch_event) (selector.by_callback cb present event s.world ∙ h)
    ]

    release-IsChosen : (s : Sys World) → IsChosen s → IsChosen (release s)
    unfolding release
    release-IsChosen s h = h

  update-IsChosen :
      (fuel : ℕ) (url : CString) (s : Sys World) (r : Err × Sys World)
      → config.url ≡ some url
      → s.trace ≡ []
      → update P K fuel (some config) s ≡ some r
      → IsChosen (boot s.world) r.1
  update-IsChosen fuel url s r given fresh e =
      let old = boot s.world in
      update-keeps P K config (IsChosen old) (IsChosen-IsKept old) (release-IsChosen old)
        (dispatch-IsChosen old) fuel url s r given (rw fresh refl) (rw fresh refl) e

  -- An update is all or nothing: a run of `ota_api_update` that returns ESP_OK leaves the new image
  -- as the one to boot, and a run that returns anything else leaves the boot partition as it was. It
  -- is taken that just a successful esp_https_ota_finish sets the boot partition.
  pub update-boots :
      (fuel : ℕ) (url : CString) (s : Sys World) (r : Err × Sys World)
      → config.url ≡ some url
      → s.trace ≡ []
      → update P K fuel (some config) s ≡ some r
      → boot r.1.world ≡ (if is_ok r.0 then target else boot s.world)
  update-boots fuel url s r given fresh e =
      let chosen_now = update-IsChosen fuel url s r given fresh e in
      let counted = (update-commits P K config fuel url s r given fresh e).0 in
      elim (Bool-cases (is_ok r.0)) [
        | inl ok ↦ rw ok (chosen_now ∙ rw (counted, ok) refl)
        | inr bad ↦ rw bad (chosen_now ∙ rw (counted, bad) refl)
      ]
