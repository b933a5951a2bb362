-- ===== src/Update/Recovery.antt =====
-- src/ota-api.c: what an update may do to the image to go back to.
pub mod Disk
use mathlib.Core.Path.{subst}
use mathlib.Core.Option.{some-injective}
use esp32s3_ota_api.Prelude.{
  ℕ, ◌≡◌, refl, sym, ◌∙◌, inl, inr, Bool, true, false, Option, none, some, Bool-cases, Option-cases,
  arith,
}
use esp32s3_ota_api.Prelude.CString.{CString}
use esp32s3_ota_api.Err.{Err, invalid_arg, invalid_state, is_ok, is_in_progress}
use esp32s3_ota_api.Config.{Kconfig, Config, Event, EventCb}
use esp32s3_ota_api.Http.{zeroed, build_http_config}
use esp32s3_ota_api.System.{Platform, OtaConfig, Sys, mark, external, claimed, configured, begun}
use esp32s3_ota_api.System.Images.{IsRecoverable, IsUnchanged, carried, settled}
use esp32s3_ota_api.Report.{dispatch_event}
use esp32s3_ota_api.Prelude.Int.{ℤ, pos}
use esp32s3_ota_api.Update.Loop.{Holds, rounds_rule}
use esp32s3_ota_api.Update.{
  Exit, broke, returned, check_incoming_image, round, rounds, conclude, download_image, prepare,
  settle, session, ota_config, run_update, release, notify, announce, update,
}
use esp32s3_ota_api.Update.Claim.{taken, update-free, update-busy}
use esp32s3_ota_api.Update.Kept.{IsKept}
use esp32s3_ota_api.Update.Keeps.{session-keeps}
use esp32s3_ota_api.Update.OnTrial.{IsWriter, IsTame, backed, session-IsBacked}

module _ (P : Platform) (K : Kconfig) (config : Config (P.World))
    (on_trial fallback : P.World → Bool) (writer : IsWriter P on_trial fallback)
    (tame : IsTame P config on_trial fallback) where
  open P use {World, Handle}

  off-IsKept : IsKept P config (λ s. on_trial s.world ≡ false)
  unfolding external
  off-IsKept = record {
    in_begin = λ c s h. writer.begin_trial c s.world ∙ h;
    in_img_desc = λ d s h. writer.img_desc_trial d s.world ∙ h;
    in_perform = λ d s h. writer.perform_trial d s.world ∙ h;
    in_abort = λ d s h. writer.abort_trial d s.world ∙ h;
    in_finish = λ d s h. writer.finish_trial d s.world ∙ h;
    in_callback =
        λ cb present event during s h. (tame.callback_same cb present event s.world).0 ∙ h;
    in_silence = λ silent event during s h. h;
    in_mark = λ m e q s h. h;
  }

  dispatch-IsRecoverable :
      (event : Event) (s : Sys World)
      → IsRecoverable on_trial fallback s.world
      → IsRecoverable on_trial fallback (dispatch_event P config event s).1.world
  unfolding dispatch_event external
  dispatch-IsRecoverable event s h = elim (Option-cases config.event_cb) [
    | inl absent ↦ rw (absent, dispatch_event) h
    | inr (cb, present) ↦
        rw (present, dispatch_event)
          (carried on_trial fallback s.world _ (tame.callback_same cb present event s.world) h)
  ]

  notify-IsRecoverable :
      (err : Err) (s : Sys World)
      → IsRecoverable on_trial fallback s.world
      → IsRecoverable on_trial fallback (notify P K config err s).1.world
  unfolding notify
  notify-IsRecoverable err s h = elim (Bool-cases (is_ok err)) [
    | inl ok ↦ rw (ok, notify) (dispatch-IsRecoverable Event.succeeded s h)
    | inr bad ↦ rw (bad, notify) (dispatch-IsRecoverable (Event.failed err) s h)
  ]

  transfer :
      (q r : Err × Sys World)
      → q ≡ r
      → IsRecoverable on_trial fallback q.1.world
      → IsRecoverable on_trial fallback r.1.world
  transfer q r e h = subst (λ (x : Err × Sys World). IsRecoverable on_trial fallback x.1.world) e h

  run-IsRecoverable :
      (fuel : ℕ) (url : CString) (s : Sys World) (r : Err × Sys World)
      → IsRecoverable on_trial fallback s.world
      → run_update P K fuel url config s ≡ some r
      → IsRecoverable on_trial fallback r.1.world
  unfolding run_update external
  run-IsRecoverable fuel url s r h e =
      let b = build_http_config P.net K url config zeroed in
      let s1 : Sys World = mark (configured b.0) s in
      let c = ota_config P K b.1 config in
      let note = λ (x : Err × Handle). begun x.0 in
      let o = external P (P.https_ota_begin c) note s1 in
      elim (Bool-cases (is_ok b.0)) [
        | inl ok ↦ elim (Bool-cases (on_trial s.world)) [
          | inl on ↦
              let after =
                backed P K config on_trial fallback writer tame s.world o.1.world
                  (writer.begin_trial c s.world, writer.begin_fallback c s.world on) (on, h on) in
              elim (Bool-cases (is_ok o.0.0)) [
                | inl held ↦ λ still.
                    (session-IsBacked P K config on_trial fallback writer tame fuel o.0.1 o.1 r
                      after (ground arith)).1
                | inr not_held ↦ transfer (o.0.0, o.1) r (ground arith) (λ still. after.1)
              ]
          | inr off ↦
              let still : on_trial o.1.world ≡ false = writer.begin_trial c s.world ∙ off in
              elim (Bool-cases (is_ok o.0.0)) [
                | inl held ↦ settled on_trial fallback r.1.world (
                    session-keeps P config (λ t. on_trial t.world ≡ false) off-IsKept K fuel o.0.1
                      o.1 r still (ground arith))
                | inr not_held ↦
                    transfer (o.0.0, o.1) r (ground arith)
                      (settled on_trial fallback o.1.world still)
              ]
        ]
        | inr bad ↦ transfer (b.0, s1) r (ground arith) h
      ]

  announce-IsRecoverable :
      (o : Option (Err × Sys World)) (r : Err × Sys World)
      → ((x : Err × Sys World) → o ≡ some x → IsRecoverable on_trial fallback x.1.world)
      → announce P K config o ≡ some r
      → IsRecoverable on_trial fallback r.1.world
  unfolding announce release
  announce-IsRecoverable none r ran e = cc
  announce-IsRecoverable (some (err, s)) r ran e =
      transfer (notify P K config err (release s)) r (some-injective _ _ e)
        (notify-IsRecoverable err (release s) (ran (err, s) refl))

  -- Whatever becomes of a run, an image on trial still has one to go back to.
  pub update-IsRecoverable :
      (fuel : ℕ) (s : Sys World) (r : Err × Sys World)
      → IsRecoverable on_trial fallback s.world
      → update P K fuel (some config) s ≡ some r
      → IsRecoverable on_trial fallback r.1.world
  unfolding update
  update-IsRecoverable fuel s r h e = elim (Option-cases config.url) [
    | inl missing ↦
        let refused : some (invalid_arg, s) ≡ some r = rw missing at e in
        transfer (invalid_arg, s) r (some-injective _ _ refused) h
    | inr (url, given) ↦ elim (Bool-cases s.shared.slot.running) [
      | inl busy ↦
          transfer (invalid_state, mark (claimed false) s) r
            (some-injective _ _ (sym (update-busy P K config fuel url s given busy) ∙ e)) h
      | inr free ↦
          announce-IsRecoverable (run_update P K fuel url config (taken s)) r
            (λ x. run-IsRecoverable fuel url (taken s) x h)
            (sym (update-free P K config fuel url s given free) ∙ e)
    ]
  ]
