-- ===== src/Update/OnTrial.antt =====
-- src/ota-api.c: an update that is asked for while the running image is on trial.
use mathlib.Core.Path.{subst}
use esp32s3_ota_api.Prelude.{
  ℕ, ◌≡◌, ◌∙◌, inl, inr, Bool, true, false, some, Bool-cases, Option-cases, arith,
}
use esp32s3_ota_api.Err.{Err, is_ok, is_in_progress}
use esp32s3_ota_api.Config.{Kconfig, Config, Event, EventCb}
use esp32s3_ota_api.System.{Platform, OtaConfig, Sys, external}
use esp32s3_ota_api.System.Images.{IsUnchanged}
use esp32s3_ota_api.Report.{dispatch_event}
use esp32s3_ota_api.Prelude.Int.{ℤ, pos}
use esp32s3_ota_api.Update.Loop.{Holds, rounds_rule}
use esp32s3_ota_api.Update.{
  Exit, broke, returned, check_incoming_image, round, rounds, conclude, download_image, prepare,
  settle, session,
}

-- What esp_https_ota documents. The state of the running image is left alone. While that image is on
-- trial no call on an update touches the other one: `esp_ota_begin` refuses then, which
-- `esp_https_ota_perform` calls before it writes, and so `esp_https_ota_perform` fails. Of
-- `esp_https_ota_finish` nothing is said of the other image.
pub record IsWriter (P : Platform) (on_trial fallback : P.World → Bool) : Type 0 where
  pub begin_trial : (c : OtaConfig) (w : P.World) → on_trial (P.https_ota_begin c w).1 ≡ on_trial w
  pub img_desc_trial :
      (h : P.Handle) (w : P.World) → on_trial (P.https_ota_get_img_desc h w).1 ≡ on_trial w
  pub perform_trial :
      (h : P.Handle) (w : P.World) → on_trial (P.https_ota_perform h w).1 ≡ on_trial w
  pub abort_trial : (h : P.Handle) (w : P.World) → on_trial (P.https_ota_abort h w).1 ≡ on_trial w
  pub finish_trial : (h : P.Handle) (w : P.World) → on_trial (P.https_ota_finish h w).1 ≡ on_trial w
  pub begin_fallback :
      (c : OtaConfig) (w : P.World)
      → on_trial w ≡ true
      → fallback (P.https_ota_begin c w).1 ≡ fallback w
  pub img_desc_fallback :
      (h : P.Handle) (w : P.World)
      → on_trial w ≡ true
      → fallback (P.https_ota_get_img_desc h w).1 ≡ fallback w
  pub perform_refused :
      (h : P.Handle) (w : P.World)
      → on_trial w ≡ true
      → let (err, w') = P.https_ota_perform h w in
        (is_ok err ≡ false) × (is_in_progress err ≡ false) × (fallback w' ≡ fallback w)
  pub abort_fallback :
      (h : P.Handle) (w : P.World)
      → on_trial w ≡ true
      → fallback (P.https_ota_abort h w).1 ≡ fallback w

-- The application's callback leaves both alone.
pub record IsTame (P : Platform) (config : Config (P.World)) (on_trial fallback : P.World → Bool)
    : Type 0 where
  pub callback_same :
      (cb : EventCb (P.World))
      → config.event_cb ≡ some cb
      → (event : Event) (w : P.World)
      → IsUnchanged on_trial fallback w (cb event config.user_ctx w).1

module _ (P : Platform) (K : Kconfig) (config : Config (P.World))
    (on_trial fallback : P.World → Bool) (writer : IsWriter P on_trial fallback)
    (tame : IsTame P config on_trial fallback) where
  open P use {World, Handle}

  -- On trial, with an image to go back to.
  abbrev pub IsBacked : World → Type 0
  IsBacked w = (on_trial w ≡ true) × (fallback w ≡ true)

  pub backed : (w v : World) → IsUnchanged on_trial fallback w v → IsBacked w → IsBacked v
  backed w v (trial, kept) (on, possible) = (trial ∙ on, kept ∙ possible)

  dispatch-IsBacked :
      (event : Event) (s : Sys World)
      → IsBacked s.world
      → IsBacked (dispatch_event P config event s).1.world
  unfolding dispatch_event external
  dispatch-IsBacked event s h = elim (Option-cases config.event_cb) [
    | inl absent ↦ rw (absent, dispatch_event) h
    | inr (cb, present) ↦
        rw (present, dispatch_event)
          (backed s.world _ (tame.callback_same cb present event s.world) h)
  ]

  check-IsBacked :
      (handle : Handle) (s : Sys World)
      → IsBacked s.world
      → IsBacked (check_incoming_image P handle config s).1.world
  unfolding check_incoming_image external
  check-IsBacked handle s h =
      let x = P.https_ota_get_img_desc handle s.world in
      let after =
        backed s.world x.1
          (writer.img_desc_trial handle s.world, writer.img_desc_fallback handle s.world h.0) h in
      elim (Bool-cases (is_ok x.0.0)) [
        | inl ok ↦
            rw (ok, check_incoming_image) (dispatch-IsBacked (Event.image_desc x.0.1) _ after)
        | inr bad ↦ rw (bad, check_incoming_image) after
      ]

  prepare-IsBacked :
      (handle : Handle) (s : Sys World)
      → IsBacked s.world
      → IsBacked (prepare P handle config s).1.world
  unfolding prepare
  prepare-IsBacked handle s h =
      let d = dispatch_event P config Event.started s in
      let told = dispatch-IsBacked Event.started s h in
      elim (Bool-cases (is_ok d.0)) [
        | inl ok ↦ rw (ok, prepare) (check-IsBacked handle d.1 told)
        | inr bad ↦ rw (bad, prepare) told
      ]

  -- The first chunk fails, and the download with it.
  abbrev Failed : Err × Sys World → Type 0
  Failed r = (is_ok r.0 ≡ false) × IsBacked r.1.world

  abbrev FailsAt : Exit → Sys World → Type 0
  FailsAt (broke err last) s = Failed (err, s)
  FailsAt (returned err) s = Failed (err, s)

  round-FailsAt :
      (handle : Handle) (total last : ℤ) (s : Sys World)
      → IsBacked s.world
      → let (turn, s') = round P handle config total last s in
        Holds P (λ _ t. IsBacked t.world) FailsAt turn s'
  unfolding round external
  round-FailsAt handle total last s h =
      let x = P.https_ota_perform handle s.world in
      let (bad, over, kept) = writer.perform_refused handle s.world h.0 in
      rw (over, round) (bad, backed s.world x.1 (writer.perform_trial handle s.world, kept) h)

  conclude-Failed :
      (handle : Handle) (total : ℤ) (exit : Exit) (s : Sys World)
      → FailsAt exit s
      → Failed (conclude P handle config total exit s)
  unfolding conclude
  conclude-Failed handle total (broke err last) s (bad, h) = rw (bad, conclude) (bad, h)
  conclude-Failed handle total (returned err) s h = h

  download-Failed :
      (fuel : ℕ) (handle : Handle) (s : Sys World) (r : Err × Sys World)
      → IsBacked s.world
      → download_image P fuel handle config s ≡ some r
      → Failed r
  unfolding download_image
  download-Failed fuel handle s r h e =
      let total = P.https_ota_get_image_size handle s.world in
      elim (Option-cases (rounds P fuel handle config total (pos 0) s)) [
        | inl out ↦ absurd (ground arith)
        | inr (x, ends) ↦
            let failed =
              rounds_rule P handle config total (λ _ t. IsBacked t.world) FailsAt
                (round-FailsAt handle total) fuel (pos 0) s x h ends in
            let same : conclude P handle config total x.0 x.1 ≡ r = ground arith in
            subst Failed same (conclude-Failed handle total x.0 x.1 failed)
      ]

  settle-IsBacked :
      (handle : Handle) (d r : Err × Sys World)
      → Failed d
      → settle P handle d.0 d.1 ≡ r
      → IsBacked r.1.world
  unfolding settle external
  settle-IsBacked handle d r (bad, h) e =
      subst (λ (x : Err × Sys World). IsBacked x.1.world) e
        (rw (bad, settle)
          (backed d.1.world _
            (writer.abort_trial handle d.1.world, writer.abort_fallback handle d.1.world h.0) h))

  pub session-IsBacked :
      (fuel : ℕ) (handle : Handle) (s : Sys World) (r : Err × Sys World)
      → IsBacked s.world
      → session P K fuel handle config s ≡ some r
      → IsBacked r.1.world
  unfolding session
  session-IsBacked fuel handle s r h e =
      let p = prepare P handle config s in
      let prepared = prepare-IsBacked handle s h in
      elim (Bool-cases (is_ok p.0)) [
        | inl ok ↦ elim (Option-cases (download_image P fuel handle config p.1)) [
          | inl out ↦ absurd (ground arith)
          | inr (d, ends) ↦
              settle-IsBacked handle d r (download-Failed fuel handle p.1 d prepared ends)
                (ground arith)
        ]
        | inr bad ↦ settle-IsBacked handle p r (bad, prepared) (ground arith)
      ]
