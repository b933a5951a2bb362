-- ===== src/Update/Fuel.antt =====
-- src/ota-api.c: runs of the model with different amounts of fuel.
use esp32s3_ota_api.Prelude.{
  ℕ, zero, suc, ◌≤◌, ◌≡◌, refl, sym, ◌∙◌, Option, none, some, inl, inr, arith, Bool-cases,
  Option-cases,
}
use esp32s3_ota_api.Prelude.Int.{ℤ, pos}
use esp32s3_ota_api.Prelude.CString.{CString}
use esp32s3_ota_api.Err.{Err, is_ok}
use esp32s3_ota_api.Config.{Kconfig, Config}
use esp32s3_ota_api.Http.{zeroed, build_http_config}
use esp32s3_ota_api.System.{Platform, Sys, mark, external, configured, begun}
use esp32s3_ota_api.Update.{
  Exit, Turn, again, leave, round, proceed, rounds, download_image, prepare, ota_config, session,
  run_update, announce, update,
}
use esp32s3_ota_api.Update.Claim.{taken, update-free, update-busy}

module _ (P : Platform) (config : Config (P.World)) where
  open P use {World, Handle}

  -- The result of a run under some fuel is its result under any more.
  abbrev Stays : Option (Err × Sys World) → Option (Err × Sys World) → Type 0
  Stays o o' = (r : Err × Sys World) → o ≡ some r → o' ≡ some r

  module _ (handle : Handle) (total : ℤ) where
    proceed-Stays :
        (more more' : ℤ → Sys World → Option (Exit × Sys World))
        → ((last : ℤ) (s : Sys World) (r : Exit × Sys World)
            → more last s ≡ some r
            → more' last s ≡ some r)
        → (turn : Turn) (s : Sys World) (r : Exit × Sys World) → proceed P more turn s ≡ some r
        → proceed P more' turn s ≡ some r
    unfolding proceed
    proceed-Stays more more' h (again last) s r e = h last s r e
    proceed-Stays more more' h (leave exit) s r e = e

    rounds-Stays :
        (f g : ℕ) (last : ℤ) (s : Sys World) (r : Exit × Sys World)
        → f ≤ g
        → rounds P f handle config total last s ≡ some r
        → rounds P g handle config total last s ≡ some r
    unfolding rounds
    rounds-Stays zero g last s r h e = cc
    rounds-Stays (suc f) zero last s r h e = absurd (omega arith)
    rounds-Stays (suc f) (suc g) last s r h e =
        let (turn, s') = round P handle config total last s in
        proceed-Stays (rounds P f handle config total) (rounds P g handle config total)
          (λ last' s'' r' e'. rounds-Stays f g last' s'' r' (omega arith) e') turn s' r e

  download-Stays :
      (f g : ℕ) (handle : Handle) (s : Sys World)
      → f ≤ g
      → Stays (download_image P f handle config s) (download_image P g handle config s)
  unfolding download_image
  download-Stays f g handle s h r e =
      let total = P.https_ota_get_image_size handle s.world in
      elim (Option-cases (rounds P f handle config total (pos 0) s)) [
        | inl out ↦ absurd (ground arith)
        | inr (x, ends) ↦ ground (arith, rounds-Stays handle total f g (pos 0) s x h ends)
      ]

  module _ (K : Kconfig) where
    session-Stays :
        (f g : ℕ) (handle : Handle) (s : Sys World)
        → f ≤ g
        → Stays (session P K f handle config s) (session P K g handle config s)
    unfolding session
    session-Stays f g handle s h r e =
        let p = prepare P handle config s in
        elim (Bool-cases (is_ok p.0)) [
          | inl ok ↦ elim (Option-cases (download_image P f handle config p.1)) [
            | inl out ↦ absurd (ground arith)
            | inr (x, ends) ↦ ground (arith, download-Stays f g handle p.1 h x ends)
          ]
          | inr bad ↦ ground arith
        ]

    run-Stays :
        (f g : ℕ) (url : CString) (s : Sys World)
        → f ≤ g
        → Stays (run_update P K f url config s) (run_update P K g url config s)
    unfolding run_update
    run-Stays f g url s h r e =
        let b = build_http_config P.net K url config zeroed in
        let s1 : Sys World = mark (configured b.0) s in
        let o =
          external P (P.https_ota_begin (ota_config P K b.1 config))
            (λ (x : Err × Handle). begun x.0) s1 in
        ground (arith, session-Stays f g o.0.1 o.1 h r)

    announce-Stays :
        (o o' : Option (Err × Sys World))
        → Stays o o'
        → Stays (announce P K config o) (announce P K config o')
    unfolding announce
    announce-Stays none o' h r e = cc
    announce-Stays (some x) o' h r e = rw (h x refl) e

    -- A run of the model that returns a result returns the same with any more fuel.
    pub update-more_fuel :
        (f g : ℕ) (s : Sys World) (r : Err × Sys World)
        → f ≤ g
        → update P K f (some config) s ≡ some r
        → update P K g (some config) s ≡ some r
    unfolding update
    update-more_fuel f g s r h e = elim (Option-cases config.url) [
      | inl absent ↦ ground arith
      | inr (url, given) ↦ elim (Bool-cases s.shared.slot.running) [
        | inl busy ↦
            update-busy P K config g url s given busy
            ∙ sym (update-busy P K config f url s given busy)
            ∙ e
        | inr free ↦
            update-free P K config g url s given free
            ∙ announce-Stays _ _ (run-Stays f g url (taken s) h) r
                (sym (update-free P K config f url s given free) ∙ e)
      ]
    ]
