-- ===== src/Update/Keeps.antt =====
-- src/ota-api.c: invariants of a run, from those of the calls into the code outside.
use mathlib.Core.Path.{subst}
use esp32s3_ota_api.Prelude.{
  ℕ, ◌≡◌, refl, inl, inr, Bool, true, false, some, arith, Bool-cases, Option-cases,
}
use esp32s3_ota_api.Prelude.Int.{ℤ, pos}
use esp32s3_ota_api.Prelude.CString.{CString}
use esp32s3_ota_api.Err.{Err, is_ok, is_in_progress}
use esp32s3_ota_api.Config.{AppDesc, Kconfig, Config, Event, is_during}
use esp32s3_ota_api.Http.{zeroed, build_http_config}
use esp32s3_ota_api.System.{
  Platform, Sys, mark, external, configured, begun, described, performed, unreported,
}
use esp32s3_ota_api.Report.{dispatch_event}
use esp32s3_ota_api.Report.Trace.{Reported, report-Reported}
use esp32s3_ota_api.Update.{
  Exit, broke, returned, Turn, again, leave, poll, check_incoming_image, attend, round, rounds,
  verify, conclude, download_image, prepare, settle, ota_config, session, run_update,
}
use esp32s3_ota_api.Update.Kept.{IsKept}
use esp32s3_ota_api.Update.Loop.{Holds, rounds_rule}

module _ (P : Platform) (config : Config (P.World)) (I : Sys (P.World) → Type 0)
    (kept : IsKept P config I) where
  open P use {World, Handle}

  transfer : (q r : Err × Sys World) → q ≡ r → I q.1 → I r.1
  transfer q r e h = subst (λ (x : Err × Sys World). I x.1) e h

  poll-keeps : (s : Sys World) → I s → I (poll s).1
  unfolding poll
  poll-keeps s h = kept.in_mark _ refl refl s h

  dispatch-keeps :
      (event : Event)
      → is_during event ≡ true
      → (s : Sys World) → I s
      → I (dispatch_event P config event s).1
  unfolding dispatch_event
  dispatch-keeps event during s h = elim (Option-cases config.event_cb) [
    | inl absent ↦ rw (absent, dispatch_event) (kept.in_silence absent event during s h)
    | inr (cb, present) ↦
        rw (present, dispatch_event) (kept.in_callback cb present event during s h)
  ]

  Reported-keeps : (s : Sys World) (r : Err × Sys World) → Reported P config s r → I s → I r.1
  Reported-keeps s r (inl e) h = rw e (kept.in_mark unreported refl refl s h)
  Reported-keeps s r (inr (p, e)) h = rw e (dispatch-keeps (Event.progress p) refl s h)

  check-keeps :
      (handle : Handle) (s : Sys World) → I s → I (check_incoming_image P handle config s).1
  unfolding check_incoming_image
  check-keeps handle s h =
      let op = P.https_ota_get_img_desc handle in
      let note = λ (x : Err × AppDesc). described x.0 in
      let x = external P op note s in
      elim (Bool-cases (is_ok x.0.0)) [
        | inl ok ↦
            rw (ok, check_incoming_image)
              (dispatch-keeps (Event.image_desc x.0.1) refl x.1 (kept.in_img_desc handle s h))
        | inr bad ↦ rw (bad, check_incoming_image) (kept.in_img_desc handle s h)
      ]

  prepare-keeps : (handle : Handle) (s : Sys World) → I s → I (prepare P handle config s).1
  unfolding prepare
  prepare-keeps handle s h =
      let d = dispatch_event P config Event.started s in
      let told = dispatch-keeps Event.started refl s h in
      elim (Bool-cases (is_ok d.0)) [
        | inl ok ↦ rw (ok, prepare) (check-keeps handle d.1 told)
        | inr bad ↦ rw (bad, prepare) told
      ]

  settle-keeps : (handle : Handle) (err : Err) (s : Sys World) → I s → I (settle P handle err s).1
  unfolding settle
  settle-keeps handle err s h = elim (Bool-cases (is_ok err)) [
    | inl ok ↦ rw (ok, settle) (kept.in_finish handle s h)
    | inr bad ↦ rw (bad, settle) (kept.in_abort handle s h)
  ]

  module _ (handle : Handle) (total : ℤ) where
    attend-keeps :
        (last : ℤ) (stop : Bool) (s : Sys World)
        → I s
        → I (attend P handle config total last stop s).1
    unfolding attend
    attend-keeps last true s h = h
    attend-keeps last false s h =
        Reported-keeps s _ (report-Reported P handle config total last false s) h

    pub round-keeps : (last : ℤ) (s : Sys World) → I s → I (round P handle config total last s).1
    unfolding round
    round-keeps last s h =
        let x = external P (P.https_ota_perform handle) performed s in
        let after = kept.in_perform handle s h in
        elim (Bool-cases (is_in_progress x.0)) [
          | inl more ↦
              rw (more, round) (attend-keeps last (poll x.1).0 (poll x.1).1 (poll-keeps x.1 after))
          | inr over ↦ rw (over, round) after
        ]

    rounds-keeps :
        (fuel : ℕ) (last : ℤ) (s : Sys World) (r : Exit × Sys World)
        → I s
        → rounds P fuel handle config total last s ≡ some r
        → I r.1
    rounds-keeps =
        rounds_rule P handle config total (λ _ s. I s) (λ _ s. I s)
          (λ last s h. holds _ _ (round-keeps last s h))
      where
        holds : (turn : Turn) (s : Sys World) → I s → Holds P (λ _ s. I s) (λ _ s. I s) turn s
        holds (again last) s h = h
        holds (leave exit) s h = h

    verify-keeps :
        (last : ℤ) (complete : Bool) (s : Sys World)
        → I s
        → I (verify P handle config total last complete s).1
    unfolding verify
    verify-keeps last true s h =
        Reported-keeps s _ (report-Reported P handle config total last true s) h
    verify-keeps last false s h = h

    conclude-keeps :
        (exit : Exit) (s : Sys World) → I s → I (conclude P handle config total exit s).1
    unfolding conclude
    conclude-keeps (returned err) s h = h
    conclude-keeps (broke err last) s h = elim (Bool-cases (is_ok err)) [
      | inl ok ↦ rw (ok, conclude) (verify-keeps last _ _ (kept.in_mark _ refl refl s h))
      | inr bad ↦ rw (bad, conclude) h
    ]

  download-keeps :
      (fuel : ℕ) (handle : Handle) (s : Sys World) (r : Err × Sys World)
      → I s
      → download_image P fuel handle config s ≡ some r
      → I r.1
  unfolding download_image
  download-keeps fuel handle s r h e =
      let total = P.https_ota_get_image_size handle s.world in
      elim (Option-cases (rounds P fuel handle config total (pos 0) s)) [
        | inl out ↦ absurd (ground arith)
        | inr (x, ends) ↦
            let after = rounds-keeps handle total fuel (pos 0) s x h ends in
            let kept = conclude-keeps handle total x.0 x.1 after in
            transfer (conclude P handle config total x.0 x.1) r (ground arith) kept
      ]

  module _ (K : Kconfig) where
    pub session-keeps :
        (fuel : ℕ) (handle : Handle) (s : Sys World) (r : Err × Sys World)
        → I s
        → session P K fuel handle config s ≡ some r
        → I r.1
    unfolding session
    session-keeps fuel handle s r h e =
        let p = prepare P handle config s in
        let prepared = prepare-keeps handle s h in
        elim (Bool-cases (is_ok p.0)) [
          | inl ok ↦ elim (Option-cases (download_image P fuel handle config p.1)) [
            | inl out ↦ absurd (ground arith)
            | inr (d, ends) ↦
                let kept =
                  settle-keeps handle d.0 d.1 (download-keeps fuel handle p.1 d prepared ends) in
                transfer (settle P handle d.0 d.1) r (ground arith) kept
          ]
          | inr bad ↦
              transfer (settle P handle p.0 p.1) r (ground arith)
                (settle-keeps handle p.0 p.1 prepared)
        ]

    pub run-keeps :
        (fuel : ℕ) (url : CString) (s : Sys World) (r : Err × Sys World)
        → I s
        → run_update P K fuel url config s ≡ some r
        → I r.1
    unfolding run_update
    run-keeps fuel url s r h e =
        let b = build_http_config P.net K url config zeroed in
        let s1 : Sys World = mark (configured b.0) s in
        let h1 = kept.in_mark (configured b.0) refl refl s h in
        let op = P.https_ota_begin (ota_config P K b.1 config) in
        let note = λ (x : Err × Handle). begun x.0 in
        let o = external P op note s1 in
        let h2 = kept.in_begin (ota_config P K b.1 config) s1 h1 in
        elim (Bool-cases (is_ok b.0)) [
          | inl ok ↦ elim (Bool-cases (is_ok o.0.0)) [
            | inl held ↦ session-keeps fuel o.0.1 o.1 r h2 (ground arith)
            | inr not_held ↦ transfer (o.0.0, o.1) r (ground arith) h2
          ]
          | inr bad ↦ transfer (b.0, s1) r (ground arith) h1
        ]
