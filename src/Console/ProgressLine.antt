-- ===== src/Console/ProgressLine.antt =====
-- examples/advanced/main/main.c, `print_progress_bar`: the line that it prints.
mod Tests
use esp32s3_ota_api.Prelude.{
  ℕ, ◌+◌, ◌-◌, ◌/◌, ◌%◌, ◌^◌, ◌≤◌, ◌<◌, ◌≡◌, refl, sym, ap, ◌∙◌, ◌++◌, length, arith, if◌then◌else◌,
  Bool,
}
use esp32s3_ota_api.Prelude.Int.{ℤ, pos, negsuc, ◌-ℤ◌}
use esp32s3_ota_api.Prelude.CString.{CString, codes}
use esp32s3_ota_api.Prelude.Decimal.{unsigned, signed, pad, value, value-pad}
use esp32s3_ota_api.Config.{Progress}
use esp32s3_ota_api.Report.{progress_of}
use esp32s3_ota_api.Report.Figures.{progress_bounds}
use esp32s3_ota_api.Console.{progress_bar_width, bar}
use esp32s3_ota_api.Console.Bar.{length-bar}

-- What the code does with a `double`: conversions, the division, the test whether it exceeds 0, and
-- `printf` with "%.1f".
pub record Double (D : Type 0) : Type 0 where
  pub of_int : ℤ → D
  pub to_int : D → ℤ
  pub divide : D → D → D
  pub exceeds_zero : D → Bool
  pub fixed_1 : D → CString

-- `progress->total_bytes - progress->bytes_read`, of type size_t
abbrev pub unread : Progress → ℕ
unread progress = (progress.total_bytes + (2 ^ 32 - progress.bytes_read)) % 2 ^ 32

n-unread :
    (n total : ℕ)
    → 0 < total
    → n ≤ total
    → total < 2 ^ 31
    → n + unread (progress_of n (pos total)) ≡ total
unfolding progress_of
n-unread n total some_bytes le fits = ground arith

module _ {D : Type 0} (F : Double D) where
  abbrev pub kbytes : ℕ → D
  kbytes n = F.divide (F.of_int (pos n)) (F.of_int (pos 1024))

  -- With what `esp_timer_get_time` answers, and `s_download_start_us`.
  pub rate_kbs : ℤ → ℤ → ℕ → D
  rate_kbs now_us start_us bytes_read =
      let elapsed_s = F.divide (F.of_int (now_us -ℤ start_us)) (F.of_int (pos 1000000)) in
      if F.exceeds_zero elapsed_s then F.divide (kbytes bytes_read) elapsed_s else F.of_int (pos 0)

  pub remaining_s : Progress → D → D
  remaining_s progress rate =
      if F.exceeds_zero rate then F.divide (kbytes (unread progress)) rate else F.of_int (pos 0)

  -- What follows the percentage.
  abbrev pub figures : Progress → D → CString
  figures progress rate =
      unsigned (progress.bytes_read / 1024)
      ++ codes "/"
      ++ unsigned (progress.total_bytes / 1024)
      ++ codes " KB  "
      ++ F.fixed_1 rate
      ++ codes " KB/s  ETA "
      ++ signed (F.to_int (remaining_s progress rate))
      ++ codes "s   "

  pub print_progress_bar : ℤ → ℤ → Progress → CString
  print_progress_bar now_us start_us progress =
      let rate = rate_kbs now_us start_us progress.bytes_read in
      elim progress.percent [
        | negsuc _ ↦
            codes "\r  downloading "
            ++ unsigned (progress.bytes_read / 1024)
            ++ codes " KB at "
            ++ F.fixed_1 rate
            ++ codes " KB/s      "
        | pos percent ↦
            codes "\r  ["
            ++ bar percent
            ++ codes "] "
            ++ pad 3 (signed (pos percent))
            ++ codes "%  "
            ++ figures progress rate
      ]

  -- For every report of an image whose size is positive and fits an int, with no more bytes read
  -- than that, the line begins with the bar of exactly the 30 characters that its buffer has room
  -- for beside the terminator, and the percentage of exactly three, from which the number of the
  -- report can be read; so what follows stands at the same place in each line. The bytes that are
  -- left, which the estimate of the time is made from, do not wrap around.
  pub print_progress_bar-IsAligned :
      (now_us start_us : ℤ) (n total : ℕ)
      → 0 < total
      → n ≤ total
      → total < 2 ^ 31
      → let progress = progress_of n (pos total) in
        (percent column rest : CString) × (print_progress_bar now_us start_us progress
          ≡ codes "\r  [" ++ percent ++ codes "] " ++ column ++ codes "%  " ++ rest)
        × (length percent ≡ progress_bar_width)
        × (length column ≡ 3)
        × (progress.percent ≡ pos (value 0 column))
        × (n + unread progress ≡ total)
  unfolding print_progress_bar
  print_progress_bar-IsAligned now_us start_us n total some_bytes le fits =
      let (k, percent, small, full, bytes) = progress_bounds n total some_bytes le fits in
      let progress = progress_of n (pos total) in
      let (size, back) = value-pad k (omega arith) in
      (
        bar k,
        pad 3 (signed (pos k)),
        figures progress (rate_kbs now_us start_us progress.bytes_read),
        rw percent refl,
        length-bar k small,
        size,
        percent ∙ ap pos (sym back),
        n-unread n total some_bytes le fits,
      )
