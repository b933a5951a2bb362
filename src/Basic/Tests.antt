-- ===== src/Basic/Tests.antt =====
-- A short hash and a short line.
use esp32s3_ota_api.Prelude.{ℕ, ◌*◌, ◌≡◌, refl, some, none, List, [], ◌∷◌, ◌++◌, arith, length}
use esp32s3_ota_api.Prelude.CString.{CString, codes}
use esp32s3_ota_api.Basic.{hash_print, url_from_stdin}
use esp32s3_ota_api.Basic.Hex.{unhex, unhex-hash_print}
use esp32s3_ota_api.Basic.Stdin.{url_from_stdin-IsOneLine}

abbrev hash : List ℕ
hash = 222 ∷ 173 ∷ []

unhex-hash_print_example :
    (unhex (hash_print hash) ≡ hash) × (length (hash_print hash) ≡ length hash * 2)
unhex-hash_print_example = unhex-hash_print hash (omega arith, (omega arith, tt))

hash_print-hash : hash_print hash ≡ codes "dead"
unfolding hash_print
hash_print-hash = refl

abbrev line : CString
line = codes "h:/"

url_from_stdin-IsOneLine_example :
    ((rest : CString) → url_from_stdin (line ++ b'\n' ∷ rest) ≡ some line)
    × ((t : CString) (c : ℕ) → line ≡ t ++ c ∷ [] → url_from_stdin line ≡ some t)
    × (line ≡ [] → url_from_stdin line ≡ none)
url_from_stdin-IsOneLine_example =
    url_from_stdin-IsOneLine line
      (λ e. omega (arith, e), (λ e. omega (arith, e), (λ e. omega (arith, e), tt))) (omega arith)

-- An empty input.
url_from_stdin-empty : url_from_stdin [] ≡ none
unfolding url_from_stdin
url_from_stdin-empty = refl
