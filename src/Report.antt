-- ===== src/Report.antt =====
-- src/ota-api-report.c: what an update tells the application, and what it hears back.
pub mod Trace
pub mod Figures
mod Tests
use esp32s3_ota_api.Prelude.{ℕ, ◌*◌, ◌/◌, Bool, not, ◌&&◌, none, some, ◌==◌, if◌then◌else◌}
use esp32s3_ota_api.Prelude.Int.{ℤ, pos, negsuc, ◌-ℤ◌, ltb_ℤ, to_int32}
use esp32s3_ota_api.Err.{Err, esp_ok}
use esp32s3_ota_api.Config.{Config, Event, Progress}
use esp32s3_ota_api.System.{Platform, Sys, mark, external, dispatched, unreported}

-- The `ota_api_progress_t` of `read_bytes` bytes, a number that is not negative, out of
-- `total_bytes`. The product is of type int64_t, and the quotient is cast to int.
unfoldable pub progress_of : ℕ → ℤ → Progress
progress_of read_bytes (pos total_bytes) =
    if total_bytes == 0
    then record { bytes_read = read_bytes; total_bytes = 0; percent = negsuc 0 }
    else record {
      bytes_read = read_bytes;
      total_bytes = total_bytes;
      percent = to_int32 (read_bytes * 100 / total_bytes);
    }
progress_of read_bytes (negsuc _) = record {
  bytes_read = read_bytes;
  total_bytes = 0;
  percent = negsuc 0;
}

module _ (P : Platform) where
  open P use {World, Handle, https_ota_get_image_len_read, timer_get_time}

  -- Without a callback nobody is called and the answer is ESP_OK. The event is marked all the same:
  -- it is what the application would be told.
  unfoldable pub dispatch_event : Config World → Event → Sys World → Err × Sys World
  dispatch_event config event s = elim config.event_cb [
    | none ↦ (esp_ok, mark (dispatched event esp_ok) s)
    | some event_cb ↦ external P (event_cb event config.user_ctx) (dispatched event) s
  ]

  -- From the read of the image's length on.
  pub report_length : Handle → Config World → ℤ → Sys World → Err × Sys World
  report_length handle config total_bytes s = elim (https_ota_get_image_len_read handle s.world) [
    | negsuc _ ↦ (esp_ok, mark unreported s)
    | pos read_bytes ↦ dispatch_event config (Event.progress (progress_of read_bytes total_bytes)) s
  ]

  abbrev is_limited : Config World → Bool → Bool
  is_limited config force = not force && not (config.progress_interval_ms == 0)

  abbrev is_throttled : Config World → ℤ → ℤ → Bool
  is_throttled config last_report_us now_us =
      ltb_ℤ (now_us -ℤ last_report_us) (pos (config.progress_interval_ms * 1000))

  -- The result is the error and the new `*last_report_us`.
  unfoldable pub report_progress :
      Handle → Config World → ℤ → ℤ → Bool → Sys World → (Err × ℤ) × Sys World
  unfolding report_length
  report_progress handle config total_bytes last_report_us force s =
      if is_limited config force
      then (let now_us = timer_get_time s.world in
          if is_throttled config last_report_us now_us
          then ((esp_ok, last_report_us), mark unreported s)
          else let (err, s') = report_length handle config total_bytes s in ((err, now_us), s'))
      else let (err, s') = report_length handle config total_bytes s in ((err, last_report_us), s')
