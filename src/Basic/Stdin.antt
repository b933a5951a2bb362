-- ===== src/Basic/Stdin.antt =====
-- examples/basic/main/main.c, the URL from stdin.
use esp32s3_ota_api.Prelude.{
  ℕ, zero, suc, ◌≤◌, ◌<◌, ◌≡◌, ◌≢◌, refl, none, some, [], ◌∷◌, ◌++◌, arith, length,
}
use esp32s3_ota_api.Prelude.Lists.{length-append, take-append}
use esp32s3_ota_api.Prelude.CString.{CString}
use esp32s3_ota_api.Basic.{fgets, drop_last, url_from_stdin}

abbrev pub IsOneLine : CString → Type 0
IsOneLine [] = Unit
IsOneLine (c ∷ s) = (c ≢ b'\n') × IsOneLine s

fgets-line :
    (n : ℕ) (s rest : CString)
    → IsOneLine s
    → length s < n
    → fgets n (s ++ b'\n' ∷ rest) ≡ s ++ b'\n' ∷ []
unfolding fgets
fgets-line zero s rest line h = absurd (omega arith)
fgets-line (suc n) [] rest line h = refl
fgets-line (suc n) (c ∷ s) rest line h =
    let more = fgets-line n s rest line.1 (omega arith) in ground (arith, line.0, more)

fgets-all : (n : ℕ) (s : CString) → IsOneLine s → length s ≤ n → fgets n s ≡ s
unfolding fgets
fgets-all zero [] line h = refl
fgets-all zero (c ∷ s) line h = absurd (omega arith)
fgets-all (suc n) [] line h = refl
fgets-all (suc n) (c ∷ s) line h =
    let more = fgets-all n s line.1 (omega arith) in ground (arith, line.0, more)

drop_last-append : (s : CString) (c : ℕ) → drop_last (s ++ c ∷ []) ≡ some s
drop_last-append s c = rw (length-append s (c ∷ [])) (ground (arith, take-append s (c ∷ [])))

-- A line of at most 254 characters, ended by a newline, comes through whole, whatever follows it.
-- If the input ends without the newline, the last character is lost; and if it has none at all, the
-- program writes in front of its buffer.
pub url_from_stdin-IsOneLine :
    (s : CString)
    → IsOneLine s
    → length s < 255
    → ((rest : CString) → url_from_stdin (s ++ b'\n' ∷ rest) ≡ some s)
      × ((t : CString) (c : ℕ) → s ≡ t ++ c ∷ [] → url_from_stdin s ≡ some t)
      × (s ≡ [] → url_from_stdin s ≡ none)
unfolding url_from_stdin
url_from_stdin-IsOneLine s line h = (
  λ rest. rw (fgets-line 255 s rest line h) (drop_last-append s b'\n'),
  λ t c e. rw (fgets-all 255 s line (omega arith)) (rw e (drop_last-append t c)),
  λ e. rw (fgets-all 255 s line (omega arith)) (rw e refl),
)
