-- ===== src/Update/Objections.antt =====
-- include/ota-api.h, the contract of `ota_api_event_cb_t`: how an objection of the callback ends a
-- run of `ota_api_update`.
mod Tests
use mathlib.Core.Option.{some-injective}
use mathlib.Core.Path.{subst}
use esp32s3_ota_api.Prelude.{
  ℕ, ◌≡◌, refl, sym, ◌∙◌, inl, inr, false, Option, none, some, List, [], ◌∷◌, arith, if◌then◌else◌,
  Bool-cases, Option-cases,
}
use esp32s3_ota_api.Prelude.CString.{CString}
use esp32s3_ota_api.Err.{Err, is_ok}
use esp32s3_ota_api.Config.{Kconfig, Config, Event}
use esp32s3_ota_api.System.{Platform, Mark, Sys, dispatched, aborted, released}
use esp32s3_ota_api.Update.{update}
use esp32s3_ota_api.Update.Claim.{update-busy}
use esp32s3_ota_api.Update.Machine.{releasing}
use esp32s3_ota_api.Update.Machine.Objections.{objection, attempts, phase-Heeds}
use esp32s3_ota_api.Update.Refinement.{Settled, outcome, update-Settled}

-- "Any other value stops the update, leaves the running firmware untouched, and becomes
-- ota_api_update()'s return value": after the objection come the end of the transfer, the release of
-- the slot and the news of the failure, and nothing else.
abbrev pub IsHeeded : Option (Err × List Mark) → Err → ℕ → Type 0
IsHeeded none result attempted = Unit
IsHeeded (some (err, later)) result attempted =
    (result ≡ err)
    × (is_ok result ≡ false)
    × (attempted ≡ 0)
    × ((answer : Err) × (later ≡ dispatched (Event.failed result) answer ∷ released ∷ aborted ∷ []))

abbrev pub Heeded : {W : Type 0} → Err × Sys W → Type 0
Heeded r = IsHeeded (objection r.1.trace) r.0 (attempts r.1.trace)

Settled-Heeded : {W : Type 0} (r : Err × Sys W) → Settled r → Heeded r
Settled-Heeded r (answer, t, shape, before) =
    let h = phase-Heeds t (releasing r.0) before in
    elim (Option-cases (objection t)) [
      | inl unopposed ↦ elim (Bool-cases (is_ok r.0)) [
        | inl ok ↦ rw (shape, ok) (rw unopposed tt)
        | inr bad ↦ rw (shape, bad) (rw unopposed tt)
      ]
      | inr (o, found) ↦
          let (same, bad, none_made, end) = rw found at h in
          rw (shape, bad) (rw found (same, bad, none_made, (answer, rw end refl)))
    ]

module _ (P : Platform) (K : Kconfig) (config : Config (P.World)) where
  open P use {World}

  -- If in a run of `ota_api_update` the callback answers an event before the outcome with anything
  -- but ESP_OK, that answer is what the run returns; no attempt is made to make an image bootable;
  -- and after the answer the run only ends the transfer, gives the slot back and tells the callback
  -- of the failure, whose answer then changes nothing any more.
  pub update-Heeded :
      (fuel : ℕ) (url : CString) (s : Sys World) (r : Err × Sys World)
      → config.url ≡ some url
      → s.trace ≡ []
      → update P K fuel (some config) s ≡ some r
      → Heeded r
  update-Heeded fuel url s r given fresh e = elim (Bool-cases s.shared.slot.running) [
    | inl busy ↦
        let same = some-injective _ _ (sym (update-busy P K config fuel url s given busy) ∙ e) in
        subst Heeded same (rw fresh tt)
    | inr free ↦ Settled-Heeded r (update-Settled P K config fuel url s r given fresh free e)
  ]
