-- ===== src/Basic/Hex.antt =====
-- examples/basic/main/main.c, `print_sha256`: the digits of a hash.
use esp32s3_ota_api.Prelude.{
  ℕ, ◌+◌, ◌-◌, ◌*◌, ◌/◌, ◌%◌, ◌<◌, ◌≡◌, refl, leb, List, [], ◌∷◌, arith, length, if◌then◌else◌,
}
use esp32s3_ota_api.Prelude.CString.{CString}
use esp32s3_ota_api.Basic.{nibble, hash_print}

-- The value of a lower-case hexadecimal digit.
abbrev pub digit : ℕ → ℕ
digit c = if leb c b'9' then c - b'0' else c - b'a' + 10

-- The bytes that pairs of digits stand for.
abbrev pub unhex : CString → List ℕ
unhex [] = []
unhex (c ∷ []) = []
unhex (c ∷ d ∷ s) = (digit c * 16 + digit d) ∷ unhex s

abbrev pub AreBytes : List ℕ → Type 0
AreBytes [] = Unit
AreBytes (b ∷ bs) = (b < 256) × AreBytes bs

digit-nibble : (n : ℕ) → n < 16 → digit (nibble n) ≡ n
digit-nibble n h = ground arith

byte-nibbles : (b : ℕ) → b < 256 → digit (nibble (b / 16)) * 16 + digit (nibble (b % 16)) ≡ b
byte-nibbles b h =
    omega (arith, digit-nibble (b / 16) (omega arith), digit-nibble (b % 16) (omega arith))

-- The printed form of any number of bytes can be read back to those bytes, and has two characters
-- for each: a hash of 32 fills its 65 bytes with the terminator.
pub unhex-hash_print :
    (image_hash : List ℕ)
    → AreBytes image_hash
    → (unhex (hash_print image_hash) ≡ image_hash)
      × (length (hash_print image_hash) ≡ length image_hash * 2)
unfolding hash_print
unhex-hash_print [] h = (refl, refl)
unhex-hash_print (b ∷ bs) h =
    let (back, size) = unhex-hash_print bs h.1 in
    (rw (byte-nibbles b h.0, back) refl, omega (arith, size))
