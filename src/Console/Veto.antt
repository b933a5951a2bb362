-- ===== src/Console/Veto.antt =====
-- examples/advanced/main/main.c: which updates the application's callback stops.
use esp32s3_ota_api.Prelude.{
  ℕ, zero, suc, ◌≡◌, ◌↔◌, ◌⊎◌, refl, inl, inr, true, false, [], ◌∷◌, arith, ◌==◌, take, Bool-cases,
}
use esp32s3_ota_api.Prelude.CString.{CString, is_zero, strncmp}
use esp32s3_ota_api.Err.{Err, esp_ok, validate_failed}
use esp32s3_ota_api.Config.{AppDesc, Event}
use esp32s3_ota_api.System.{Platform}
use esp32s3_ota_api.Console.{Statics, App, is_refused, on_ota_event_cb}

equal_of_strncmp : (n : ℕ) (s t : CString) → is_zero (strncmp s t n) ≡ true → take n s ≡ take n t
unfolding strncmp
equal_of_strncmp zero s t h = refl
equal_of_strncmp (suc n) [] [] h = refl
equal_of_strncmp (suc n) [] (b ∷ t) h = cc
equal_of_strncmp (suc n) (a ∷ s) [] h = cc
equal_of_strncmp (suc n) (a ∷ s) (b ∷ t) h = elim (Bool-cases (a == b)) [
  | inl same ↦
      let rest = equal_of_strncmp n s t (ground arith) in
      let first : a ≡ b = ground arith in rw (first, rest) refl
  | inr differ ↦ absurd (ground arith)
]

strncmp_of_equal : (n : ℕ) (s t : CString) → take n s ≡ take n t → is_zero (strncmp s t n) ≡ true
unfolding strncmp
strncmp_of_equal zero s t h = refl
strncmp_of_equal (suc n) [] [] h = refl
strncmp_of_equal (suc n) [] (b ∷ t) h = absurd (ground arith)
strncmp_of_equal (suc n) (a ∷ s) [] h = absurd (ground arith)
strncmp_of_equal (suc n) (a ∷ s) (b ∷ t) h =
    let rest : take n s ≡ take n t = ground arith in
    let first : a ≡ b = ground arith in ground (arith, strncmp_of_equal n s t rest)

-- The image on offer has the version that is running, and nobody asked to force it.
abbrev pub Unwanted : Statics → AppDesc → Event → Type 0
Unwanted v running (Event.image_desc new_app) =
    (v.force_update ≡ false) × (take 32 new_app.version ≡ take 32 running.version)
Unwanted v running _ = ⊥

module _ (P : Platform) (A : App (P.World)) where
  open P use {World}
  open A use {statics, app_description}

  abbrev pub verdict : Event → ℕ → World → Err
  verdict event user_ctx w = (on_ota_event_cb P A event user_ctx w).0

  -- The callback answers every event with ESP_OK or ESP_ERR_OTA_VALIDATE_FAILED. It objects to the
  -- description of an image whose version agrees with the running one, within the 32 bytes of the
  -- field, unless the update is forced, and to nothing else.
  pub verdict-Unwanted :
      (event : Event) (user_ctx : ℕ) (w : World)
      → ((verdict event user_ctx w ≡ validate_failed) ↔ Unwanted (statics w) app_description event)
        × ((verdict event user_ctx w ≡ esp_ok) ⊎ (verdict event user_ctx w ≡ validate_failed))
  unfolding on_ota_event_cb
  verdict-Unwanted Event.started user_ctx w = ((λ e. cc, λ u. absurd u), inl refl)
  verdict-Unwanted (Event.progress _) user_ctx w = ((λ e. cc, λ u. absurd u), inl refl)
  verdict-Unwanted Event.succeeded user_ctx w = ((λ e. cc, λ u. absurd u), inl refl)
  verdict-Unwanted (Event.failed _) user_ctx w = ((λ e. cc, λ u. absurd u), inl refl)
  verdict-Unwanted (Event.image_desc new_app) user_ctx w =
      let same = equal_of_strncmp 32 new_app.version app_description.version in
      let equal = strncmp_of_equal 32 new_app.version app_description.version in
      elim (Bool-cases (is_refused P A (statics w) new_app)) [
        | inl refused ↦
            rw (refused, verdict, on_ota_event_cb)
              ((λ e. (ground arith, same (ground arith)), λ u. refl), inr refl)
        | inr passed ↦
            rw (passed, verdict, on_ota_event_cb)
              ((λ e. cc, λ u. let found = equal u.1 in absurd (ground (arith, u.0))), inl refl)
      ]
