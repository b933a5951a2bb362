-- ===== src/Console/Bar.antt =====
-- examples/advanced/main/main.c, `print_progress_bar`: the bar and its buffer.
use native.Mathlib.Nat.{div-le_of_le-mul}
use esp32s3_ota_api.Prelude.{ℕ, ◌+◌, ◌-◌, ◌%◌, ◌^◌, ◌≤◌, ◌<◌, ◌≡◌, ◌∙◌, length, replicate, arith}
use esp32s3_ota_api.Prelude.Lists.{length-append, length-replicate}
use esp32s3_ota_api.Prelude.Int.{pos}
use esp32s3_ota_api.Report.{progress_of}
use esp32s3_ota_api.Report.Figures.{progress_bounds}
use esp32s3_ota_api.Console.{progress_bar_width, filled, bar}

filled_bound : (percent : ℕ) → percent ≤ 100 → filled percent ≤ progress_bar_width
filled_bound percent le = div-le_of_le-mul 100 (omega arith)

pub length-bar : (percent : ℕ) → percent ≤ 100 → length (bar percent) ≡ progress_bar_width
unfolding bar
length-bar percent le =
    let f = filled percent in
    let rest = (progress_bar_width + (2 ^ 32 - f)) % 2 ^ 32 in
    let fits = filled_bound percent le in
    length-append (replicate f b'#') (replicate rest b'.')
    ∙ omega (arith, length-replicate {A = ℕ} f b'#', length-replicate {A = ℕ} rest b'.', fits)

-- For every report of an image whose size is positive and fits an int, with no more bytes read
-- than that, the bar has exactly the 30 characters that its buffer has room for beside the
-- terminator: no `memset` writes outside of it.
pub bar-progress_of :
    (n total : ℕ)
    → 0 < total
    → n ≤ total
    → total < 2 ^ 31
    → (k : ℕ) × ((progress_of n (pos total)).percent ≡ pos k)
      × (length (bar k) ≡ progress_bar_width)
bar-progress_of n total some_bytes le fits =
    let (k, percent, small, full, bytes) = progress_bounds n total some_bytes le fits in
    (k, percent, length-bar k small)
