-- ===== src/Update/Refinement.antt =====
-- src/ota-api.c against docs/update_state_machine.md: the last stages of an update, and the whole.
use mathlib.Core.Path.{subst}
use mathlib.Core.Option.{some-injective}
use esp32s3_ota_api.Prelude.{
  ℕ, ◌≡◌, refl, sym, ◌∙◌, inl, inr, false, Option, none, some, List, [], ◌∷◌, arith, if◌then◌else◌,
  Bool-cases, Option-cases,
}
use esp32s3_ota_api.Prelude.CString.{CString}
use esp32s3_ota_api.Err.{Err, is_ok}
use esp32s3_ota_api.Config.{Kconfig, Config, Event}
use esp32s3_ota_api.Http.{zeroed, build_http_config}
use esp32s3_ota_api.System.{
  Platform, Mark, Sys, mark, external, configured, begun, dispatched, released,
}
use esp32s3_ota_api.System.Effects.{external-result, external-trace}
use esp32s3_ota_api.Report.{dispatch_event}
use esp32s3_ota_api.Report.Trace.{dispatch-trace}
use esp32s3_ota_api.Update.{
  release, download_image, prepare, settle, ota_config, session, run_update, notify, announce,
  update,
}
use esp32s3_ota_api.Update.Claim.{taken, update-free}
use esp32s3_ota_api.Update.Machine.{
  configuring, notifying, committing, releasing, unless, next, phase,
}
use esp32s3_ota_api.Update.Stages.{prepare-phase, download-phase}

abbrev pub outcome : Err → Event
outcome err = if is_ok err then Event.succeeded else Event.failed err

-- How a run that got the slot ends: with the release, and then with one outcome event.
abbrev pub Settled : {W : Type 0} → Err × Sys W → Type 0
Settled r =
    (v : Err) × (t : List Mark) × (r.1.trace ≡ dispatched (outcome r.0) v ∷ released ∷ t)
    × (phase t ≡ some (releasing r.0))

module _ (P : Platform) (K : Kconfig) (config : Config (P.World)) where
  open P use {World, Handle}

  settle-phase :
      (handle : Handle) (err : Err) (s : Sys World)
      → phase s.trace ≡ some (unless err committing)
      → let (err', s') = settle P handle err s in phase s'.trace ≡ some (releasing err')
  unfolding settle external next
  settle-phase handle err s h = elim (Bool-cases (is_ok err)) [
    | inl ok ↦ rw (ok, settle) (rw (h, ok) refl)
    | inr bad ↦ rw (bad, settle) (rw (h, bad) refl)
  ]

  session-phase :
      (fuel : ℕ) (handle : Handle) (s : Sys World) (r : Err × Sys World)
      → phase s.trace ≡ some notifying
      → session P K fuel handle config s ≡ some r
      → phase r.1.trace ≡ some (releasing r.0)
  unfolding session
  session-phase fuel handle s r h e =
      let p = prepare P handle config s in
      let prepared = prepare-phase P config handle s h in
      elim (Bool-cases (is_ok p.0)) [
        | inl ok ↦ elim (Option-cases (download_image P fuel handle config p.1)) [
          | inl out ↦ absurd (ground arith)
          | inr (d, ends) ↦
              let downloaded = download-phase P config fuel handle p.1 d (ground arith) ends in
              let settled = settle-phase handle d.0 d.1 downloaded in ground arith
        ]
        | inr bad ↦ let settled = settle-phase handle p.0 p.1 (ground arith) in ground arith
      ]

  run-phase :
      (fuel : ℕ) (url : CString) (s : Sys World) (r : Err × Sys World)
      → phase s.trace ≡ some configuring
      → run_update P K fuel url config s ≡ some r
      → phase r.1.trace ≡ some (releasing r.0)
  unfolding run_update next
  run-phase fuel url s r h e =
      let b = build_http_config P.net K url config zeroed in
      let s1 : Sys World = mark (configured b.0) s in
      let op = P.https_ota_begin (ota_config P K b.1 config) in
      let note = λ (x : Err × Handle). begun x.0 in
      let o = external P op note s1 in
      let opened = external-trace P op note s1 in
      let same = external-result P op note s1 in
      elim (Bool-cases (is_ok b.0)) [
        | inl ok ↦ elim (Bool-cases (is_ok o.0.0)) [
          | inl held ↦ session-phase fuel o.0.1 o.1 r (ground arith) (ground arith)
          | inr not_held ↦ ground arith
        ]
        | inr bad ↦ ground arith
      ]

  notify-trace :
      (err : Err) (s : Sys World)
      → (notify P K config err s).1.trace
        ≡ dispatched (outcome err) (dispatch_event P config (outcome err) s).0 ∷ s.trace
  unfolding notify
  notify-trace err s = elim (Bool-cases (is_ok err)) [
    | inl ok ↦ rw (ok, notify) (dispatch-trace P config Event.succeeded s)
    | inr bad ↦ rw (bad, notify) (dispatch-trace P config (Event.failed err) s)
  ]

  pub notify-result : (err : Err) (s : Sys World) → (notify P K config err s).0 ≡ err
  unfolding notify
  notify-result err s = ground arith

  notify-Settled :
      (err : Err) (s : Sys World)
      → phase s.trace ≡ some (releasing err)
      → Settled (notify P K config err (release s))
  unfolding release
  notify-Settled err s h =
      let v = (dispatch_event P config (outcome err) (release s)).0 in
      rw notify-result (v, s.trace, notify-trace err (release s), h)

  announce-Settled :
      (o : Option (Err × Sys World)) (r : Err × Sys World)
      → ((x : Err × Sys World) → o ≡ some x → phase x.1.trace ≡ some (releasing x.0))
      → announce P K config o ≡ some r
      → Settled r
  unfolding announce
  announce-Settled none r ran e = cc
  announce-Settled (some (err, s)) r ran e =
      subst Settled (some-injective _ _ e) (notify-Settled err s (ran (err, s) refl))

  -- A run that gets the slot takes the machine of docs/update_state_machine.md from idle to
  -- RELEASING, releases the slot, and then dispatches one outcome event and does nothing more. The
  -- event is SUCCEEDED if the result is ESP_OK, and FAILED with the result otherwise.
  pub update-Settled :
      (fuel : ℕ) (url : CString) (s : Sys World) (r : Err × Sys World)
      → config.url ≡ some url
      → s.trace ≡ []
      → s.shared.slot.running ≡ false
      → update P K fuel (some config) s ≡ some r
      → Settled r
  unfolding next
  update-Settled fuel url s r given h free e =
      let ran = run-phase fuel url (taken s) in
      announce-Settled (run_update P K fuel url config (taken s)) r (λ x. ran x (rw h refl))
        (sym (update-free P K config fuel url s given free) ∙ e)
