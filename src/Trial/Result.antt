-- ===== src/Trial/Result.antt =====
-- include/ota-api.h on the results of `ota_api_trial_begin` and `ota_api_trial_confirm`.
use esp32s3_ota_api.Prelude.{
  ℕ, ◌*◌, ◌%◌, ◌^◌, ◌<◌, ◌≡◌, refl, ◌⊎◌, not, ◌&&◌, true, false, Option, none, some, inl, inr,
  arith, if◌then◌else◌, is_some, Bool-cases,
}
use esp32s3_ota_api.Err.{Err, esp_ok, invalid_state, is_ok}
use esp32s3_ota_api.Config.{Kconfig}
use esp32s3_ota_api.Trial.{
  Board, State, is_on_trial, start, with_timer, trial_begin, stop, trial_confirm,
}
use esp32s3_ota_api.Trial.Laws.{
  IsDocumented, countdown, seconds, begin-countdown, begin-refused, confirm-countdown,
}

ok_lem : (err : Err) → is_ok err ≡ true → err ≡ esp_ok
ok_lem err ok = ground arith

module _ (B : Board) where
  -- "any error from esp_timer"
  abbrev pub FromTimer : Err → Type 0
  FromTimer err =
      ((w : B.World) × (err ≡ (B.timer_create w).0.0))
      ⊎ ((t : B.Timer) × (d : ℕ) × (w : B.World) × (err ≡ (B.timer_start_once t d w).0))

  with_timer-FromTimer :
      (timer : Option B.Timer) (n : ℕ) (w : B.World) → FromTimer (with_timer B timer n w).0
  unfolding with_timer start
  with_timer-FromTimer (some t) n w = inr (t, (n * 1000000) % 2 ^ 64, w, refl)
  with_timer-FromTimer none n w =
      let x = B.timer_create w in
      elim (Bool-cases (is_ok x.0.0)) [
        | inl created ↦ rw created (inr (x.0.1, (n * 1000000) % 2 ^ 64, x.1, refl))
        | inr failed ↦ rw failed (inl (w, refl))
      ]

  module _ (K : Kconfig) (window : B.Timer → B.World → Option ℕ) (doc : IsDocumented B window) where
    -- "ESP_OK: countdown started; ESP_ERR_INVALID_STATE: the image is not on trial, or a countdown
    -- is already running; any error from esp_timer"
    abbrev pub IsBeginResult : ℕ → State B → Err × State B → Type 0
    IsBeginResult timeout_s s r =
        if is_on_trial B s.world && not (is_some (countdown B K window doc s))
        then ((r.0 ≡ esp_ok)
            × (countdown B K window doc r.1 ≡ some (seconds B K window doc timeout_s * 1000000)))
          ⊎ ((is_ok r.0 ≡ false) × FromTimer r.0)
        else (r.0 ≡ invalid_state) × (countdown B K window doc r.1 ≡ countdown B K window doc s)

    -- "ESP_OK: image confirmed; ESP_ERR_INVALID_STATE: the running image is not on trial; any error
    -- from esp_ota_mark_app_valid_cancel_rollback()"
    abbrev pub IsConfirmResult : State B → Err × State B → Type 0
    IsConfirmResult s r =
        if is_on_trial B s.world
        then (countdown B K window doc r.1 ≡ none)
          × (is_on_trial B r.1.world ≡ not (is_ok r.0))
          × ((w : B.World) × (r.0 ≡ (B.ota_mark_app_valid_cancel_rollback w).0))
        else r ≡ (invalid_state, s)

    begin-FromTimer :
        (timeout_s : ℕ) (s : State B)
        → is_on_trial B s.world ≡ true
        → FromTimer (trial_begin B K timeout_s s).0
    unfolding trial_begin
    begin-FromTimer timeout_s s trial =
        rw trial (with_timer-FromTimer s.timer (seconds B K window doc timeout_s) s.world)

    begin-IsBeginResult :
        (timeout_s : ℕ) (s : State B)
        → seconds B K window doc timeout_s < 2 ^ 32
        → IsBeginResult timeout_s s (trial_begin B K timeout_s s)
    begin-IsBeginResult timeout_s s small =
        elim (Bool-cases (is_on_trial B s.world && not (is_some (countdown B K window doc s)))) [
          | inl useful ↦ elim (Bool-cases (is_ok (trial_begin B K timeout_s s).0)) [
            | inl ok ↦
                let begun = ok_lem (trial_begin B K timeout_s s).0 ok in
                let (trial, idle, runs, on) =
                  begin-countdown B K window doc timeout_s s small begun in
                rw useful (inl (begun, runs))
            | inr bad ↦ rw useful (inr (bad, begin-FromTimer timeout_s s (ground (arith, useful))))
          ]
          | inr useless ↦ rw useless (begin-refused B K window doc timeout_s s useless)
        ]

    confirm-IsConfirmResult : (s : State B) → IsConfirmResult s (trial_confirm B s)
    unfolding trial_confirm
    confirm-IsConfirmResult s = elim (Bool-cases (is_on_trial B s.world)) [
      | inl trial ↦
          let (quiet, left, back) = confirm-countdown B K window doc s trial in
          rw trial (rw trial at quiet, rw trial at left, (stop B s.timer s.world, refl))
      | inr settled ↦ rw settled refl
    ]

    -- From every state a begin and a confirmation answer as documented. On trial and with no
    -- countdown under way, a begin answers ESP_OK and the countdown has the seconds asked for, or
    -- those of the configuration for 0; or it answers with an error from esp_timer. Else it answers
    -- ESP_ERR_INVALID_STATE, and a countdown under way goes on. A confirmation on trial stops the
    -- countdown and answers what esp_ota_mark_app_valid_cancel_rollback does, and the image leaves
    -- its trial exactly if that is ESP_OK; off trial it answers ESP_ERR_INVALID_STATE and does
    -- nothing. The board is taken to do what is documented, and the seconds to fit 32 bits.
    pub trial-Results :
        (timeout_s : ℕ) (s : State B)
        → seconds B K window doc timeout_s < 2 ^ 32
        → IsBeginResult timeout_s s (trial_begin B K timeout_s s)
          × IsConfirmResult s (trial_confirm B s)
    trial-Results timeout_s s small =
        (begin-IsBeginResult timeout_s s small, confirm-IsConfirmResult s)
