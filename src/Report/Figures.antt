-- ===== src/Report/Figures.antt =====
-- src/ota-api-report.c: the figures of a progress report, and how often reports are made.
use native.Mathlib.Nat.{div-le_of_le-mul, le-div_iff_mul-le, le_of_eq}
use esp32s3_ota_api.Prelude.{
  ℕ, zero, suc, refl, ap, Bool, true, false, if◌then◌else◌, ◌*◌, ◌^◌, ◌/◌, ◌≤◌, ◌<◌, ◌≡◌, sym, ◌↔◌,
  arith, ◌⊎◌,
}
use esp32s3_ota_api.Prelude.Int.{ℤ, pos, negsuc, pos_part, ◌≤ℤ◌, ◌-ℤ◌}
use esp32s3_ota_api.Config.{Progress, Config}
use esp32s3_ota_api.Report.{progress_of, report_length}
use esp32s3_ota_api.Err.{Err, esp_ok}
use esp32s3_ota_api.System.{Platform, Sys, mark, unreported}

percent_bounds : (n total : ℕ) → n ≤ total → 0 < total → n * 100 / total ≤ 100
percent_bounds n total le some_bytes = div-le_of_le-mul total (omega arith)

percent_full : (n total : ℕ) → n ≤ total → 0 < total → (n * 100 / total ≡ 100) ↔ (n ≡ total)
percent_full n total le some_bytes = (
  λ h. omega (arith, (le-div_iff_mul-le some_bytes).0 (le_of_eq (sym h))),
  λ h. omega (
    arith,
    percent_bounds n total le some_bytes,
    (le-div_iff_mul-le {x = 100} {y = n * 100} some_bytes).1 (omega arith),
  ),
)

pub progress_bounds :
    (n total : ℕ)
    → 0 < total
    → n ≤ total
    → total < 2 ^ 31
    → let p = progress_of n (pos total) in
      (k : ℕ) × (p.percent ≡ pos k)
      × (k ≤ 100)
      × ((k ≡ 100) ↔ (n ≡ total))
      × (p.bytes_read ≤ p.total_bytes)
unfolding progress_of
progress_bounds n total some_bytes le fits = (
  n * 100 / total,
  ground (arith, percent_bounds n total),
  percent_bounds n total le some_bytes,
  percent_full n total le some_bytes,
  ground arith,
)

-- The server sent the size of the image.
abbrev pub is_known : ℤ → Bool
is_known (pos zero) = false
is_known (pos (suc _)) = true
is_known (negsuc _) = false

-- "Image bytes downloaded so far"; "Total image size, or 0 when the server sends no Content-Length";
-- "Completion 0..100, or -1 when total_bytes is 0".
abbrev pub IsSnapshot : ℕ → ℤ → Progress → Type 0
IsSnapshot n total p =
    (p.bytes_read ≡ n)
    × (if is_known total
        then (pos p.total_bytes ≡ total)
          × ((k : ℕ) × (p.percent ≡ pos k)
              × (k ≤ 100)
              × ((k ≡ 100) ↔ (p.bytes_read ≡ p.total_bytes)))
        else (p.total_bytes ≡ 0) × (p.percent ≡ negsuc 0))

-- The total, if there is one, fits an int, and no more is read than that.
abbrev pub IsWithin : ℕ → ℤ → Type 0
IsWithin n total = is_known total ≡ true → (n ≤ pos_part total) × (pos_part total < 2 ^ 31)

counts :
    (n t : ℕ) → let p = progress_of n (pos (suc t)) in (p.bytes_read ≡ n) × (p.total_bytes ≡ suc t)
unfolding progress_of
counts n t = (ground arith, ground arith)

-- The figures of a report are as documented: the bytes read so far; and, if the total is known, that
-- and a percentage within 0..100, which is 100 exactly when all is read, else 0 and -1. It is taken
-- that a known total fits an int, and that no more bytes are read than that.
pub progress_of-IsSnapshot :
    (n : ℕ) (total : ℤ) → IsWithin n total → IsSnapshot n total (progress_of n total)
unfolding progress_of
progress_of-IsSnapshot n (negsuc total) within = (refl, (refl, refl))
progress_of-IsSnapshot n (pos zero) within = (refl, (refl, refl))
progress_of-IsSnapshot n (pos (suc t)) within =
    let (le, fits) = within refl in
    let (k, percent, small, full, bytes) = progress_bounds n (suc t) (omega arith) le fits in
    let (read, whole) = counts n t in
    (read, (ap pos whole, (k, percent, small, rw (read, whole) full)))

module _ (P : Platform) (handle : P.Handle) (config : Config (P.World)) where
  open P use {World, timer_get_time}

  -- How a report that may be held back relates to the clock.
  abbrev pub IsSpaced : ℤ → ℤ → Sys World → (Err × ℤ) × Sys World → Type 0
  IsSpaced total last s r =
      let now = timer_get_time s.world in
      let interval = pos (config.progress_interval_ms * 1000) in
      (¬ (interval ≤ℤ now -ℤ last) × (r ≡ ((esp_ok, last), mark unreported s)))
      ⊎ ((interval ≤ℤ now -ℤ last)
          × (r.0.1 ≡ now)
          × ((r.0.0, r.1) ≡ report_length P handle config total s))
