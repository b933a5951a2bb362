-- ===== src/Update/Stages.antt =====
-- src/ota-api.c and src/ota-api-report.c: the stages of an update, against the machine of
-- docs/update_state_machine.md.
use esp32s3_ota_api.Prelude.{
  ℕ, ◌≡◌, refl, inl, inr, Bool, true, false, some, arith, if◌then◌else◌, Bool-cases, Option-cases,
}
use esp32s3_ota_api.Prelude.Int.{ℤ, pos}
use esp32s3_ota_api.Err.{Err, not_finished, validate_failed, is_ok, is_in_progress}
use esp32s3_ota_api.Config.{Config, Event}
use esp32s3_ota_api.System.{Platform, Sys, external, performed}
use esp32s3_ota_api.Report.{dispatch_event, report_progress}
use esp32s3_ota_api.Report.Trace.{dispatch-trace, Reported, report-Reported}
use esp32s3_ota_api.Update.{
  Exit, broke, returned, Turn, turn_of, check_incoming_image, poll, attend, round, rounds, verify,
  conclude, download_image, prepare,
}
use esp32s3_ota_api.Update.Loop.{Holds, rounds_rule}
use esp32s3_ota_api.Update.Machine.{
  downloading, going_on, verifying, whole, committing, aborting, notifying, inspecting, unless,
  next, phase,
}

module _ (P : Platform) (config : Config (P.World)) where
  open P use {World, Handle, https_ota_perform}

  Reported-phase :
      (s : Sys World) (r : Err × Sys World)
      → phase s.trace ≡ some going_on
      → Reported P config s r
      → phase r.1.trace ≡ some (unless r.0 downloading)
  unfolding next
  Reported-phase s r h (inl e) = ground arith
  Reported-phase s r h (inr (q, e)) = ground (arith, dispatch-trace P config (Event.progress q) s)

  forced-phase :
      (s : Sys World) (r : Err × Sys World)
      → phase s.trace ≡ some whole
      → Reported P config s r
      → phase r.1.trace ≡ some (unless r.0 committing)
  unfolding next
  forced-phase s r h (inl e) = ground arith
  forced-phase s r h (inr (q, e)) = ground (arith, dispatch-trace P config (Event.progress q) s)

  abbrev AfterExit : Exit → Sys World → Type 0
  AfterExit (broke err last) s = phase s.trace ≡ some (unless err verifying)
  AfterExit (returned err) s = (phase s.trace ≡ some (aborting err)) × (is_ok err ≡ false)

  abbrev AfterTurn : Turn → Sys World → Type 0
  AfterTurn = Holds P (λ _ s. phase s.trace ≡ some downloading) AfterExit

  turn-phase :
      (err : Err) (last : ℤ) (s : Sys World)
      → phase s.trace ≡ some (unless err downloading)
      → AfterTurn (turn_of err last) s
  unfolding turn_of
  turn-phase err last s h = elim (Bool-cases (is_ok err)) [
    | inl ok ↦ rw ok (ground arith)
    | inr bad ↦ rw bad (ground arith)
  ]

  module _ (handle : Handle) (total : ℤ) where
    attend-phase :
        (last : ℤ) (stop : Bool) (s : Sys World)
        → phase s.trace ≡ some (if stop then aborting not_finished else going_on)
        → let (turn, s') = attend P handle config total last stop s in AfterTurn turn s'
    unfolding attend
    attend-phase last true s h = (h, refl)
    attend-phase last false s h =
        let r = report_progress P handle config total last false s in
        turn-phase r.0.0 r.0.1 r.1
          (Reported-phase s (r.0.0, r.1) h (report-Reported P handle config total last false s))

    round-phase :
        (last : ℤ) (s : Sys World)
        → phase s.trace ≡ some downloading
        → let (turn, s') = round P handle config total last s in AfterTurn turn s'
    unfolding round external poll next
    round-phase last s h =
        let s' = (external P (https_ota_perform handle) performed s).1 in
        elim (Bool-cases (is_in_progress (https_ota_perform handle s.world).0)) [
          | inl more ↦ rw (more, round) (attend-phase last _ _ (rw (h, more) refl))
          | inr done ↦ rw (done, round) (rw (h, done) refl)
        ]

    rounds-phase :
        (fuel : ℕ) (last : ℤ) (s : Sys World) (r : Exit × Sys World)
        → phase s.trace ≡ some downloading
        → rounds P fuel handle config total last s ≡ some r
        → AfterExit r.0 r.1
    rounds-phase =
        rounds_rule P handle config total (λ _ s. phase s.trace ≡ some downloading) AfterExit
          round-phase

    verify-phase :
        (last : ℤ) (complete : Bool) (s : Sys World)
        → phase s.trace ≡ some (if complete then whole else aborting validate_failed)
        → let (err, s') = verify P handle config total last complete s in
          phase s'.trace ≡ some (unless err committing)
    unfolding verify
    verify-phase last true s h =
        let r = report_progress P handle config total last true s in
        forced-phase s (r.0.0, r.1) h (report-Reported P handle config total last true s)
    verify-phase last false s h = h

    conclude-phase :
        (exit : Exit) (s : Sys World)
        → AfterExit exit s
        → let (err, s') = conclude P handle config total exit s in
          phase s'.trace ≡ some (unless err committing)
    unfolding conclude next
    conclude-phase (returned err) s (h, bad) = rw bad h
    conclude-phase (broke err last) s h = elim (Bool-cases (is_ok err)) [
      | inl ok ↦ rw (ok, conclude) (verify-phase last _ _ (rw (h, ok) refl))
      | inr bad ↦ rw (bad, conclude) (rw (h, bad) refl)
    ]

  pub download-phase :
      (fuel : ℕ) (handle : Handle) (s : Sys World) (r : Err × Sys World)
      → phase s.trace ≡ some downloading
      → download_image P fuel handle config s ≡ some r
      → phase r.1.trace ≡ some (unless r.0 committing)
  unfolding download_image
  download-phase fuel handle s r h e =
      let total = P.https_ota_get_image_size handle s.world in
      elim (Option-cases (rounds P fuel handle config total (pos 0) s)) [
        | inl out ↦ absurd (ground arith)
        | inr (x, ends) ↦
            let after = rounds-phase handle total fuel (pos 0) s x h ends in
            let last = conclude-phase handle total x.0 x.1 after in ground arith
      ]

  check-phase :
      (handle : Handle) (s : Sys World)
      → phase s.trace ≡ some inspecting
      → let (err, s') = check_incoming_image P handle config s in
        phase s'.trace ≡ some (unless err downloading)
  unfolding check_incoming_image external next
  check-phase handle s h =
      let x = P.https_ota_get_img_desc handle s.world in
      elim (Bool-cases (is_ok x.0.0)) [
        | inl ok ↦ rw (ok, check_incoming_image) (rw (dispatch-trace, h, ok) refl)
        | inr bad ↦ rw (bad, check_incoming_image) (rw (h, bad) refl)
      ]

  pub prepare-phase :
      (handle : Handle) (s : Sys World)
      → phase s.trace ≡ some notifying
      → let (err, s') = prepare P handle config s in phase s'.trace ≡ some (unless err downloading)
  unfolding prepare next
  prepare-phase handle s h =
      let d = dispatch_event P config Event.started s in
      let told : phase d.1.trace ≡ some (unless d.0 inspecting) = rw dispatch-trace (rw h refl) in
      elim (Bool-cases (is_ok d.0)) [
        | inl ok ↦ rw (ok, prepare) (check-phase handle d.1 (rw told (rw ok refl)))
        | inr bad ↦ rw (bad, prepare) (rw (told, bad) refl)
      ]
