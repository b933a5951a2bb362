-- ===== src/Console/ProgressLine/Tests.antt =====
-- Lines of a download of 1024 KB, with thousandths from 0 on in the place of `double`.
use esp32s3_ota_api.Prelude.{ℕ, ◌+◌, ◌*◌, ◌/◌, ◌%◌, ◌≡◌, refl, ◌++◌, length, arith, ltb}
use esp32s3_ota_api.Prelude.Int.{pos, negsuc}
use esp32s3_ota_api.Prelude.CString.{CString, codes}
use esp32s3_ota_api.Prelude.Decimal.{decimal, value}
use esp32s3_ota_api.Report.{progress_of}
use esp32s3_ota_api.Console.{progress_bar_width, bar}
use esp32s3_ota_api.Console.ProgressLine.{
  Double, unread, rate_kbs, remaining_s, print_progress_bar, print_progress_bar-IsAligned,
}

abbrev thousandths : Double ℕ
thousandths = record {
  of_int = λ i. elim i [ pos n ↦ n * 1000 | negsuc n ↦ 0 ];
  to_int = λ a. pos (a / 1000);
  divide = λ a b. a * 1000 / b;
  exceeds_zero = λ a. ltb 0 a;
  fixed_1 = λ a. decimal 10 (a / 1000) ++ codes "." ++ decimal 1 (a / 100 % 10);
}

half_way :
    print_progress_bar thousandths (pos 5000000) (pos 3000000) (progress_of 524288 (pos 1048576))
    ≡ codes "\r  [###############...............]  50%  512/1024 KB  256.0 KB/s  ETA 2s   "
unfolding print_progress_bar rate_kbs remaining_s progress_of decimal bar
half_way = refl

size_unknown :
    print_progress_bar thousandths (pos 5000000) (pos 3000000) (progress_of 524288 (pos 0))
    ≡ codes "\r  downloading 512 KB at 256.0 KB/s      "
unfolding print_progress_bar rate_kbs progress_of decimal
size_unknown = refl

-- A clock that has not moved, and nothing read.
at_once :
    print_progress_bar thousandths (pos 3000000) (pos 3000000) (progress_of 0 (pos 1048576))
    ≡ codes "\r  [..............................]   0%  0/1024 KB  0.0 KB/s  ETA 0s   "
unfolding print_progress_bar rate_kbs remaining_s progress_of decimal bar
at_once = refl

print_progress_bar-IsAligned_example :
    let progress = progress_of 524288 (pos 1048576) in
    (percent column rest : CString) × (print_progress_bar thousandths
        (pos 5000000)
        (pos 3000000)
        progress
      ≡ codes "\r  [" ++ percent ++ codes "] " ++ column ++ codes "%  " ++ rest)
    × (length percent ≡ progress_bar_width)
    × (length column ≡ 3)
    × (progress.percent ≡ pos (value 0 column))
    × (524288 + unread progress ≡ 1048576)
print_progress_bar-IsAligned_example =
    print_progress_bar-IsAligned thousandths (pos 5000000) (pos 3000000) 524288 1048576
      (omega arith) (omega arith) (omega arith)
