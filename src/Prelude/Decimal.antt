-- ===== src/Prelude/Decimal.antt =====
-- `printf` with "%u", "%d" and a width, and the number that a column shows.
use Prim.Native.Nat.{ℕ, zero, suc, ◌+◌, ◌-◌, ◌*◌, ◌/◌, ◌%◌, ◌^◌, ◌≤◌, ◌<◌}
use native.Mathlib.Nat.{div-lt_iff_lt-mul}
use mathlib.Core.Path.{◌≡◌, refl, ◌∙◌}
use mathlib.Core.Logic.{inl, inr}
use mathlib.Core.List.{[], ◌∷◌, ◌++◌}
use native.Mathlib.Omega.{arith}
use esp32s3_ota_api.Prelude.Tests.{ltb, ◌==◌, if◌then◌else◌, length, replicate, Bool-cases}
use esp32s3_ota_api.Prelude.Int.{ℤ, pos, negsuc}
use esp32s3_ota_api.Prelude.Lists.{length-append, length-replicate}
use esp32s3_ota_api.Prelude.CString.{CString}

-- At most `digits` of them, the last ones.
unfoldable pub decimal : ℕ → ℕ → CString
decimal zero n = []
decimal (suc digits) n =
    let rest = decimal digits (n / 10) in (if ltb n 10 then [] else rest) ++ (b'0' + n % 10) ∷ []

-- Numbers of 32 bits have no more than ten digits.
abbrev pub unsigned : ℕ → CString
unsigned n = decimal 10 (n % 2 ^ 32)

abbrev pub signed : ℤ → CString
signed (pos n) = decimal 10 n
signed (negsuc n) = b'-' ∷ decimal 10 (suc n)

-- To the right in a column of `width`.
abbrev pub pad : ℕ → CString → CString
pad width s = replicate (width - length s) b' ' ++ s

-- The number that a column shows, spaces in front aside.
pub value : ℕ → CString → ℕ
value acc [] = acc
value acc (c ∷ s) = value (if c == b' ' then acc else acc * 10 + (c - b'0')) s

value-append : (acc : ℕ) (s t : CString) → value acc (s ++ t) ≡ value (value acc s) t
unfolding value
value-append acc [] t = refl
value-append acc (c ∷ s) t = value-append (if c == b' ' then acc else acc * 10 + (c - b'0')) s t

value-spaces : (acc n : ℕ) (s : CString) → value acc (replicate n b' ' ++ s) ≡ value acc s
unfolding value
value-spaces acc zero s = refl
value-spaces acc (suc n) s = value-spaces acc n s

value-digit : (acc d : ℕ) → d < 10 → value acc ((b'0' + d) ∷ []) ≡ acc * 10 + d
unfolding value
value-digit acc d small = ground arith

shorter : (n width : ℕ) → n < 10 ^ suc width → n / 10 < 10 ^ width
shorter n width small =
    (div-lt_iff_lt-mul {k = 10} {x = n} {y = 10 ^ width} (omega arith)).1 (omega arith)

value-decimal : (digits n : ℕ) → n < 10 ^ digits → value 0 (decimal digits n) ≡ n
unfolding decimal value
value-decimal zero n small = omega arith
value-decimal (suc digits) n small = elim (Bool-cases (ltb n 10)) [
  | inl one ↦ rw one (value-digit 0 (n % 10) (omega arith) ∙ ground arith)
  | inr more ↦
      let rest : value 0 (decimal digits (n / 10)) ≡ n / 10 =
        value-decimal digits (n / 10) (shorter n digits small) in
      rw (more, value-append 0 (decimal digits (n / 10)) ((b'0' + n % 10) ∷ []), rest)
        (value-digit (n / 10) (n % 10) (omega arith) ∙ omega arith)
]

length-decimal : (digits width n : ℕ) → n < 10 ^ suc width → length (decimal digits n) ≤ suc width
unfolding decimal
length-decimal zero width n small = omega arith
length-decimal (suc digits) zero n small = ground arith
length-decimal (suc digits) (suc width) n small = elim (Bool-cases (ltb n 10)) [
  | inl one ↦ rw one (omega arith)
  | inr more ↦
      rw (more, length-append (decimal digits (n / 10)) ((b'0' + n % 10) ∷ []))
        (omega (arith, length-decimal digits width (n / 10) (shorter n (suc width) small)))
]

-- A number of at most three digits fills just a column of three, and can be read from it.
pub value-pad :
    (n : ℕ) → n < 1000 → (length (pad 3 (decimal 10 n)) ≡ 3) × (value 0 (pad 3 (decimal 10 n)) ≡ n)
value-pad n small =
    let s = decimal 10 n in
    let le : length s ≤ 3 = length-decimal 10 2 n small in
    (
      length-append (replicate (3 - length s) b' ') s
          ∙ omega (arith, length-replicate {A = ℕ} (3 - length s) b' '),
      value-spaces 0 (3 - length s) s ∙ value-decimal 10 n (omega arith),
    )
