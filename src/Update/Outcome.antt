-- ===== src/Update/Outcome.antt =====
-- src/ota-api.c, `ota_api_update`: what a whole run leaves behind.
use mathlib.Core.Path.{subst}
use mathlib.Core.Option.{some-injective}
use esp32s3_ota_api.Prelude.{
  ℕ, ◌≡◌, refl, sym, ap, ◌∙◌, inl, inr, true, false, Option, none, some, [], arith, if◌then◌else◌,
  Bool-cases,
}
use esp32s3_ota_api.Prelude.CString.{CString}
use esp32s3_ota_api.Err.{Err, is_ok}
use esp32s3_ota_api.Slot.{initial, release_update_slot}
use esp32s3_ota_api.Config.{Kconfig, Config}
use esp32s3_ota_api.System.{
  Platform, Sys, begun, described, performed, aborted, finished, dispatched,
}
use esp32s3_ota_api.System.Sharing.{IsMine, IsCoherent}
use esp32s3_ota_api.System.Effects.{external-IsMine}
use esp32s3_ota_api.Update.{run_update, release, notify, announce, update}
use esp32s3_ota_api.Update.Claim.{taken, update-free, update-busy}
use esp32s3_ota_api.Update.Kept.{IsKept}
use esp32s3_ota_api.Update.Keeps.{run-keeps}
use esp32s3_ota_api.Update.Machine.{done, next, phase}
use esp32s3_ota_api.Update.Machine.Laws.{
  opened, closed, commits, guarded, phase-Accounts, phase-guarded,
}
use esp32s3_ota_api.Update.Refinement.{Settled, notify-result, update-Settled}

module _ (P : Platform) (K : Kconfig) (config : Config (P.World)) where
  open P use {World}

  Settled-phase : (r : Err × Sys World) → Settled r → phase r.1.trace ≡ some (done r.0)
  unfolding next
  Settled-phase r (v, t, shape, before) = elim (Bool-cases (is_ok r.0)) [
    | inl ok ↦ rw (shape, before, ok) (rw ok refl)
    | inr bad ↦ rw (shape, before, bad) (rw bad refl)
  ]

  -- The calls that a run of `ota_api_update` makes, and their results, take the machine of
  -- docs/update_state_machine.md from IDLE back to IDLE, with the result that the run returns. This
  -- holds for a run that is refused the slot as well.
  pub update-phase :
      (fuel : ℕ) (url : CString) (s : Sys World) (r : Err × Sys World)
      → config.url ≡ some url
      → s.trace ≡ []
      → update P K fuel (some config) s ≡ some r
      → phase r.1.trace ≡ some (done r.0)
  unfolding next
  update-phase fuel url s r given fresh e = elim (Bool-cases s.shared.slot.running) [
    | inl busy ↦
        let same = some-injective _ _ (sym (update-busy P K config fuel url s given busy) ∙ e) in
        subst (λ (x : Err × Sys World). phase x.1.trace ≡ some (done x.0)) same (rw fresh refl)
    | inr free ↦ Settled-phase r (update-Settled P K config fuel url s r given fresh free e)
  ]

  -- The one irreversible step. A run makes an image bootable exactly if it returns ESP_OK, and then
  -- once; and it attempts to only straight after the last chunk came without an error, the image
  -- was found complete, and the last progress report met no objection from the callback.
  pub update-commits :
      (fuel : ℕ) (url : CString) (s : Sys World) (r : Err × Sys World)
      → config.url ≡ some url
      → s.trace ≡ []
      → update P K fuel (some config) s ≡ some r
      → (commits r.1.trace ≡ (if is_ok r.0 then 1 else 0)) × (guarded r.1.trace ≡ true)
  update-commits fuel url s r given fresh e =
      let p = update-phase fuel url s r given fresh e in
      ((phase-Accounts r.1.trace (done r.0) p).bootable, phase-guarded r.1.trace (done r.0) p)

  -- No handle leaks and none is given up twice: as many handles as `esp_https_ota_begin` gave out
  -- are given up, by `esp_https_ota_finish` or by `esp_https_ota_abort`, whatever the result.
  pub update-handles :
      (fuel : ℕ) (url : CString) (s : Sys World) (r : Err × Sys World)
      → config.url ≡ some url
      → s.trace ≡ []
      → update P K fuel (some config) s ≡ some r
      → opened r.1.trace ≡ closed r.1.trace
  update-handles fuel url s r given fresh e =
      let a = phase-Accounts r.1.trace (done r.0) (update-phase fuel url s r given fresh e) in
      omega (arith, a.handles)

  IsMine-IsKept : IsKept P config (λ s. IsMine s.shared)
  IsMine-IsKept = record {
    in_begin = λ c s h. external-IsMine P (P.https_ota_begin c) (λ r. begun r.0) s h;
    in_img_desc = λ d s h. external-IsMine P (P.https_ota_get_img_desc d) (λ r. described r.0) s h;
    in_perform = λ d s h. external-IsMine P (P.https_ota_perform d) performed s h;
    in_abort = λ d s h. external-IsMine P (P.https_ota_abort d) (λ _. aborted) s h;
    in_finish = λ d s h. external-IsMine P (P.https_ota_finish d) finished s h;
    in_callback = λ cb e event during s h.
        external-IsMine P (cb event config.user_ctx) (dispatched event) s h;
    in_silence = λ silent event during s h. h;
    in_mark = λ m e q s h. h;
  }

  run-IsMine :
      (fuel : ℕ) (url : CString) (s : Sys World) (r : Err × Sys World)
      → IsMine s.shared
      → run_update P K fuel url config s ≡ some r
      → IsMine r.1.shared
  run-IsMine = run-keeps P config (λ s. IsMine s.shared) IsMine-IsKept K

  -- What the slot holds when a run that got it tells its outcome.
  abbrev pub Freed : Err × Sys World → Type 0
  Freed r =
      (s : Sys World) × (r ≡ notify P K config r.0 s)
      × (s.shared ≡ record { slot = initial; other = false })

  announce-Freed :
      (o : Option (Err × Sys World)) (r : Err × Sys World)
      → ((x : Err × Sys World) → o ≡ some x → IsMine x.1.shared)
      → announce P K config o ≡ some r
      → Freed r
  unfolding announce release release_update_slot
  announce-Freed none r ran e = cc
  announce-Freed (some (err, s)) r ran e =
      let freed : Freed (notify P K config err (release s)) = (
        release s,
        ap (λ x. notify P K config x (release s)) (sym (notify-result P K config err (release s))),
        ground (arith, (ran (err, s) refl).alone),
      ) in
      subst Freed (some-injective _ _ e) freed

  -- A run that gets the slot has it to itself until it is over, and hands it back, with no request
  -- to stop left over, before the callback learns the outcome. It is taken that at the start the
  -- flag was set exactly if another update had the slot.
  pub update-Freed :
      (fuel : ℕ) (url : CString) (s : Sys World) (r : Err × Sys World)
      → config.url ≡ some url
      → s.shared.slot.running ≡ false
      → IsCoherent s.shared
      → update P K fuel (some config) s ≡ some r
      → Freed r
  update-Freed fuel url s r given free c e =
      announce-Freed (run_update P K fuel url config (taken s)) r
        (λ x. run-IsMine fuel url (taken s) x (ground arith))
        (sym (update-free P K config fuel url s given free) ∙ e)
