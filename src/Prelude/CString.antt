-- ===== src/Prelude/CString.antt =====
-- C strings: the bytes before the terminating zero.
pub mod Compare
use Prim.Native.Nat.{ℕ, zero, suc, ◌+◌}
use Prim.Native.Char.{code}
use Prim.Native.String.{String}
use mathlib.Core.Path.{◌≡◌}
use mathlib.Core.Bool.{Bool, false, ◌&&◌}
use mathlib.Core.List.{List, [], ◌∷◌, ◌++◌, map}
use esp32s3_ota_api.Prelude.Tests.{ltb, leb, ◌==◌, if◌then◌else◌}
use esp32s3_ota_api.Prelude.Int.{ℤ, pos, negsuc, ◌-ℤ◌}

abbrev pub CString : Type 0
CString = List ℕ

abbrev pub codes : String → CString
codes String.[] = []
codes (String.◌∷◌ c s) = code c ∷ codes s

-- `tolower` in the C locale
unfoldable pub tolower : ℕ → ℕ
tolower c = if leb b'A' c && leb c b'Z' then c + 32 else c

-- `strncasecmp` of <strings.h>: the difference of the first bytes that differ, case aside, within
-- the first `n`.
unfoldable pub strncasecmp : CString → CString → ℕ → ℤ
unfolding tolower
strncasecmp s t zero = pos 0
strncasecmp [] [] (suc n) = pos 0
strncasecmp [] (b ∷ t) (suc n) = pos 0 -ℤ pos (tolower b)
strncasecmp (a ∷ s) [] (suc n) = pos (tolower a)
strncasecmp (a ∷ s) (b ∷ t) (suc n) =
    if tolower a == tolower b then strncasecmp s t n else pos (tolower a) -ℤ pos (tolower b)

abbrev pub is_zero : ℤ → Bool
is_zero (pos n) = n == 0
is_zero (negsuc n) = false

-- `s` begins with `t`, case aside.
abbrev pub BeginsWith : CString → CString → Type 0
BeginsWith s t = (p rest : CString) × (s ≡ p ++ rest) × (map tolower p ≡ map tolower t)

-- `strcmp` and `strncmp` of <string.h>, of which C promises the sign only.
abbrev pub order : ℕ → ℕ → ℤ
order a b = if ltb a b then negsuc 0 else pos 1

unfoldable pub strcmp : CString → CString → ℤ
strcmp [] [] = pos 0
strcmp [] (b ∷ t) = negsuc 0
strcmp (a ∷ s) [] = pos 1
strcmp (a ∷ s) (b ∷ t) = if a == b then strcmp s t else order a b

unfoldable pub strncmp : CString → CString → ℕ → ℤ
strncmp s t zero = pos 0
strncmp [] [] (suc n) = pos 0
strncmp [] (b ∷ t) (suc n) = negsuc 0
strncmp (a ∷ s) [] (suc n) = pos 1
strncmp (a ∷ s) (b ∷ t) (suc n) = if a == b then strncmp s t n else order a b
