-- ===== src/Report/Tests.antt =====
-- The figures at one point of a download.
use esp32s3_ota_api.Prelude.{ℕ, arith}
use esp32s3_ota_api.Prelude.Int.{pos}
use esp32s3_ota_api.Report.{progress_of}
use esp32s3_ota_api.Report.Figures.{IsSnapshot, progress_of-IsSnapshot}

abbrev read : ℕ
read = 1000

abbrev total : ℕ
total = 3000

progress_of-IsSnapshot_example : IsSnapshot read (pos total) (progress_of read (pos total))
progress_of-IsSnapshot_example =
    progress_of-IsSnapshot read (pos total) (λ known. (omega arith, omega arith))
