-- ===== src/Update/Whole.antt =====
-- src/ota-api.c, `ota_api_update`: invariants of a whole run, from the claim of the slot to the
-- outcome.
use mathlib.Core.Path.{subst}
use mathlib.Core.Option.{some-injective}
use esp32s3_ota_api.Prelude.{
  ℕ, ◌≡◌, refl, sym, ◌∙◌, inl, inr, false, Option, none, some, Bool-cases,
}
use esp32s3_ota_api.Prelude.CString.{CString}
use esp32s3_ota_api.Err.{Err, is_ok}
use esp32s3_ota_api.Config.{Kconfig, Config, Event}
use esp32s3_ota_api.System.{Platform, Sys, mark, claimed}
use esp32s3_ota_api.Report.{dispatch_event}
use esp32s3_ota_api.Update.{run_update, release, notify, announce, update}
use esp32s3_ota_api.Update.Claim.{taken, update-free, update-busy}
use esp32s3_ota_api.Update.Kept.{IsKept}
use esp32s3_ota_api.Update.Keeps.{run-keeps}

module _ (P : Platform) (K : Kconfig) (config : Config (P.World)) (I : Sys (P.World) → Type 0)
    (kept : IsKept P config I) (frees : (s : Sys (P.World)) → I s → I (release s))
    (tells : (event : Event) (s : Sys (P.World))
      → I s
      → I (dispatch_event P config event s).1) where
  open P use {World}

  notify-keeps : (err : Err) (s : Sys World) → I s → I (notify P K config err s).1
  unfolding notify
  notify-keeps err s h = elim (Bool-cases (is_ok err)) [
    | inl ok ↦ rw (ok, notify) (tells Event.succeeded s h)
    | inr bad ↦ rw (bad, notify) (tells (Event.failed err) s h)
  ]

  announce-keeps :
      (o : Option (Err × Sys World)) (r : Err × Sys World)
      → ((x : Err × Sys World) → o ≡ some x → I x.1)
      → announce P K config o ≡ some r
      → I r.1
  unfolding announce
  announce-keeps none r ran e = cc
  announce-keeps (some (err, s)) r ran e =
      subst (λ (x : Err × Sys World). I x.1) (some-injective _ _ e)
        (notify-keeps err (release s) (frees s (ran (err, s) refl)))

  -- The claim is taken, or refused.
  pub update-keeps :
      (fuel : ℕ) (url : CString) (s : Sys World) (r : Err × Sys World)
      → config.url ≡ some url
      → I (taken s)
      → I (mark (claimed false) s)
      → update P K fuel (some config) s ≡ some r
      → I r.1
  update-keeps fuel url s r given got not_got e = elim (Bool-cases s.shared.slot.running) [
    | inl busy ↦
        subst (λ (x : Err × Sys World). I x.1)
          (some-injective _ _ (sym (update-busy P K config fuel url s given busy) ∙ e)) not_got
    | inr free ↦
        announce-keeps (run_update P K fuel url config (taken s)) r
          (λ x. run-keeps P config I kept K fuel url (taken s) x got)
          (sym (update-free P K config fuel url s given free) ∙ e)
  ]
