-- ===== src/Update/Termination.antt =====
-- src/ota-api.c, `while (1)` in `download_image`: how long the loop goes on.
use esp32s3_ota_api.Prelude.{
  ℕ, zero, suc, ◌+◌, ◌≤◌, ◌<◌, ◌≡◌, refl, ◌∙◌, Bool, true, false, Option, some, inl, inr, arith,
  Bool-cases, Option-cases,
}
use esp32s3_ota_api.Prelude.Int.{ℤ, pos}
use esp32s3_ota_api.Prelude.CString.{CString}
use esp32s3_ota_api.Err.{Err, invalid_arg, is_ok, is_in_progress}
use esp32s3_ota_api.Config.{Kconfig, Config, Event, EventCb}
use esp32s3_ota_api.Http.{zeroed, build_http_config}
use esp32s3_ota_api.System.{Platform, Sys, mark, external, configured, begun, performed}
use esp32s3_ota_api.System.Effects.{external-world, external-result}
use esp32s3_ota_api.Report.{dispatch_event, report_progress}
use esp32s3_ota_api.Report.Trace.{Reported, report-Reported}
use esp32s3_ota_api.Update.{
  Exit, Turn, again, leave, turn_of, poll, attend, round, proceed, rounds, conclude, download_image,
  prepare, settle, ota_config, session, run_update, release, notify, announce, claimed_update,
  update,
}
use esp32s3_ota_api.Update.Claim.{taken, update-free, update-busy}

abbrev pub Returns {ℓ} : {A : Type ℓ} → Option A → Type ℓ
Returns {A} o = (a : A) × (o ≡ some a)

-- The image is finite: a chunk after which more is to come leaves less of it to fetch, and the
-- callback fetches nothing back.
pub record IsFinite (P : Platform) (config : Config (P.World)) (left : P.World → ℕ) : Type 0 where
  pub perform_falls :
      (handle : P.Handle) (w : P.World)
      → is_in_progress (P.https_ota_perform handle w).0 ≡ true
      → left (P.https_ota_perform handle w).1 < left w
  pub callback_keeps :
      (event_cb : EventCb (P.World))
      → config.event_cb ≡ some event_cb
      → (event : Event) (w : P.World) → left (event_cb event config.user_ctx w).1 ≤ left w

module _ (P : Platform) (config : Config (P.World)) (left : P.World → ℕ)
    (fin : IsFinite P config left) where
  open P use {World, Handle}

  dispatch-left :
      (event : Event) (s : Sys World)
      → left (dispatch_event P config event s).1.world ≤ left s.world
  unfolding dispatch_event
  dispatch-left event s = elim (Option-cases config.event_cb) [
    | inl absent ↦ rw (absent, dispatch_event) (omega arith)
    | inr (cb, present) ↦
        rw (present, dispatch_event)
          (rw external-world (fin.callback_keeps cb present event s.world))
  ]

  Reported-left :
      (s : Sys World) (r : Err × Sys World) → Reported P config s r → left r.1.world ≤ left s.world
  Reported-left s r (inl e) = rw e (omega arith)
  Reported-left s r (inr (p, e)) = rw e (dispatch-left (Event.progress p) s)

  -- What is left after a round that asks for another.
  abbrev Falls : Sys World → Turn → Sys World → Type 0
  Falls s (again last) s' = left s'.world < left s.world
  Falls s (leave exit) s' = Unit

  module _ (handle : Handle) (total : ℤ) where
    attend-Falls :
        (last : ℤ) (stop : Bool) (s0 s : Sys World)
        → left s.world < left s0.world
        → let (turn, s') = attend P handle config total last stop s in Falls s0 turn s'
    unfolding attend turn_of
    attend-Falls last true s0 s h = tt
    attend-Falls last false s0 s h =
        let r = report_progress P handle config total last false s in
        let reported =
          Reported-left s (r.0.0, r.1) (report-Reported P handle config total last false s) in
        elim (Bool-cases (is_ok r.0.0)) [ inl ok ↦ rw ok (omega arith) | inr bad ↦ rw bad tt ]

    round-Falls :
        (last : ℤ) (s : Sys World)
        → let (turn, s') = round P handle config total last s in Falls s turn s'
    unfolding round poll
    round-Falls last s =
        let op = P.https_ota_perform handle in
        let x = external P op performed s in
        let result = external-result P op performed s in
        let world = external-world P op performed s in
        elim (Bool-cases (is_in_progress x.0)) [
          | inl more ↦
              let falls = fin.perform_falls handle s.world (rw (← result) more) in
              rw (more, round) (attend-Falls last (poll x.1).0 s (poll x.1).1 (rw world falls))
          | inr over ↦ rw (over, round) tt
        ]

    proceed-Returns :
        (more : ℤ → Sys World → Option (Exit × Sys World)) (s0 : Sys World) (turn : Turn)
        (s : Sys World)
        → ((last : ℤ) (s : Sys World) → left s.world < left s0.world → Returns (more last s))
        → Falls s0 turn s
        → Returns (proceed P more turn s)
    unfolding proceed
    proceed-Returns more s0 (again last) s rest falls = rest last s falls
    proceed-Returns more s0 (leave exit) s rest falls = ((exit, s), refl)

    -- As many rounds as there is left to fetch, and one more, are enough.
    rounds-Returns :
        (fuel : ℕ) (last : ℤ) (s : Sys World)
        → left s.world < fuel
        → Returns (rounds P fuel handle config total last s)
    unfolding rounds
    rounds-Returns zero last s h = absurd (omega arith)
    rounds-Returns (suc fuel) last s h =
        let (turn, s') = round P handle config total last s in
        proceed-Returns (rounds P fuel handle config total) s turn s'
          (λ last' s'' falls. rounds-Returns fuel last' s'' (omega arith)) (round-Falls last s)

  download-Returns :
      (handle : Handle) (s : Sys World)
      → (fuel : ℕ) × Returns (download_image P fuel handle config s)
  unfolding download_image
  download-Returns handle s =
      let total = P.https_ota_get_image_size handle s.world in
      let fuel = left s.world + 1 in
      let (x, ends) = rounds-Returns handle total fuel (pos 0) s (omega arith) in
      (fuel, (conclude P handle config total x.0 x.1, rw (ends, download_image)))

  module _ (K : Kconfig) where
    session-Returns :
        (handle : Handle) (s : Sys World) → (fuel : ℕ) × Returns (session P K fuel handle config s)
    unfolding session
    session-Returns handle s =
        let p = prepare P handle config s in
        let (fuel, downloaded) = download-Returns handle p.1 in
        let (d, ends) = downloaded in
        elim (Bool-cases (is_ok p.0)) [
          | inl ok ↦ (fuel, (settle P handle d.0 d.1, ground arith))
          | inr bad ↦ (fuel, (settle P handle p.0 p.1, ground arith))
        ]

    run-Returns :
        (url : CString) (s : Sys World) → (fuel : ℕ) × Returns (run_update P K fuel url config s)
    unfolding run_update
    run-Returns url s =
        let b = build_http_config P.net K url config zeroed in
        let s1 : Sys World = mark (configured b.0) s in
        let o =
          external P (P.https_ota_begin (ota_config P K b.1 config))
            (λ (x : Err × Handle). begun x.0) s1 in
        let (fuel, over) = session-Returns o.0.1 o.1 in
        let (r, ends) = over in
        elim (Bool-cases (is_ok b.0)) [
          | inl ok ↦ elim (Bool-cases (is_ok o.0.0)) [
            | inl held ↦ (fuel, (r, ground arith))
            | inr not_held ↦ (fuel, ((o.0.0, o.1), ground arith))
          ]
          | inr bad ↦ (fuel, ((b.0, s1), ground arith))
        ]

    -- If the image is finite, that is, each chunk after which more is to come leaves less to fetch
    -- and the callback fetches nothing back, an update of any configuration, from any state, comes
    -- to an end and returns a result.
    pub update-Returns : (s : Sys World) → (fuel : ℕ) × Returns (update P K fuel (some config) s)
    unfolding update claimed_update announce
    update-Returns s = elim (Option-cases config.url) [
      | inl absent ↦ (0, ((invalid_arg, s), rw (absent, update)))
      | inr (url, given) ↦ elim (Bool-cases s.shared.slot.running) [
        | inl busy ↦ (0, (_, update-busy P K config 0 url s given busy))
        | inr free ↦
            let (fuel, ran) = run-Returns url (taken s) in
            let (r, ends) = ran in
            (
              fuel,
              (
                notify P K config r.0 (release r.1),
                update-free P K config fuel url s given free ∙ rw (ends, announce),
              ),
            )
      ]
    ]
