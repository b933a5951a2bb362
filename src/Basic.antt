-- ===== src/Basic.antt =====
-- examples/basic/main/main.c: the print of a hash, and the URL that is read from stdin.
pub mod Hex
pub mod Stdin
pub mod Startup
mod Tests
use esp32s3_ota_api.Prelude.{
  ℕ, zero, suc, ◌+◌, ◌-◌, ◌/◌, ◌%◌, ltb, Bool, Option, none, some, List, [], ◌∷◌, ◌==◌, length,
  take, if◌then◌else◌,
}
use esp32s3_ota_api.Prelude.CString.{CString}

-- `sprintf` with "%02x", of a byte.
abbrev pub nibble : ℕ → ℕ
nibble n = if ltb n 10 then b'0' + n else b'a' + (n - 10)

abbrev pub sprintf_02x : ℕ → CString
sprintf_02x byte = nibble (byte / 16) ∷ nibble (byte % 16) ∷ []

-- What the loop of `print_sha256` leaves in `hash_print`: each call writes behind the one before.
unfoldable pub hash_print : List ℕ → CString
hash_print [] = []
hash_print (byte ∷ image_hash) = nibble (byte / 16) ∷ nibble (byte % 16) ∷ hash_print image_hash

-- `fgets` into a buffer that has room for `n` bytes and the terminator, and was empty: the bytes of
-- the input, which has no zeros, up to the end of the line. At the end of the input the buffer
-- stays as it was.
unfoldable pub fgets : ℕ → List ℕ → CString
fgets zero input = []
fgets (suc n) [] = []
fgets (suc n) (c ∷ input) = if c == b'\n' then c ∷ [] else c ∷ fgets n input

-- `url_buf[len - 1] = '\0'`; `none` is a write in front of the buffer.
abbrev pub drop_last : CString → Option CString
drop_last url_buf = if length url_buf == 0 then none else some (take (length url_buf - 1) url_buf)

-- `OTA_URL_SIZE` is 256.
unfoldable pub url_from_stdin : List ℕ → Option CString
unfolding fgets
url_from_stdin input = drop_last (fgets 255 input)
