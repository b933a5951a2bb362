-- ===== src/Report/Trace.antt =====
-- src/ota-api-report.c: what each function leaves behind, and for whom.
use esp32s3_ota_api.Prelude.{ℕ, ◌≡◌, refl, ◌⊎◌, inl, inr, Bool, ◌∷◌, arith, Bool-cases}
use esp32s3_ota_api.Prelude.Int.{ℤ, pos, negsuc}
use esp32s3_ota_api.Err.{Err, esp_ok}
use esp32s3_ota_api.Config.{Config, Event, Progress}
use esp32s3_ota_api.System.{Platform, Sys, mark, external, dispatched, unreported}
use esp32s3_ota_api.Report.{
  progress_of, dispatch_event, is_limited, is_throttled, report_length, report_progress,
}

pub ℤ-cases : (n : ℤ) → ((k : ℕ) × (n ≡ pos k)) ⊎ ((k : ℕ) × (n ≡ negsuc k))
ℤ-cases (pos k) = inl (k, refl)
ℤ-cases (negsuc k) = inr (k, refl)

module _ (P : Platform) where
  open P use {World, Handle, https_ota_get_image_len_read, timer_get_time}

  pub dispatch-trace :
      (config : Config World) (event : Event) (s : Sys World)
      → (dispatch_event P config event s).1.trace
        ≡ dispatched event (dispatch_event P config event s).0 ∷ s.trace
  unfolding dispatch_event external
  dispatch-trace config event s = ground arith

  -- A report either reaches nobody and gives no reason to stop, or it is one progress event, and
  -- the verdict on that is the result.
  abbrev pub Reported : Config World → Sys World → Err × Sys World → Type 0
  Reported config s r =
      (r ≡ (esp_ok, mark unreported s))
      ⊎ ((p : Progress) × (r ≡ dispatch_event P config (Event.progress p) s))

  report_length-Reported :
      (handle : Handle) (config : Config World) (total : ℤ) (s : Sys World)
      → Reported config s (report_length P handle config total s)
  unfolding report_length
  report_length-Reported handle config total s =
      elim (ℤ-cases (https_ota_get_image_len_read handle s.world)) [
        | inl (k, e) ↦ inr (progress_of k total, rw (e, report_length))
        | inr (k, e) ↦ inl (rw (e, report_length))
      ]

  pub report-Reported :
      (handle : Handle) (config : Config World) (total last : ℤ) (force : Bool) (s : Sys World)
      → let r = report_progress P handle config total last force s in Reported config s (r.0.0, r.1)
  unfolding report_progress
  report-Reported handle config total last force s = elim (Bool-cases (is_limited P config force)) [
    | inl limited ↦ elim (Bool-cases (is_throttled P config last (timer_get_time s.world))) [
      | inl early ↦ inl (rw (limited, report_progress, early))
      | inr due ↦ rw (limited, report_progress, due) (report_length-Reported handle config total s)
    ]
    | inr free ↦ rw (free, report_progress) (report_length-Reported handle config total s)
  ]
