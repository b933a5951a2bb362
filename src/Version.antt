-- ===== src/Version.antt =====
-- The command `version` of examples/on_demand/main/main.c and examples/advanced/main/main.c: the
-- lines that both print.
use esp32s3_ota_api.Prelude.{ℕ, zero, suc, ◌/◌, ◌%◌, [], ◌∷◌, ◌++◌}
use esp32s3_ota_api.Prelude.CString.{CString, codes}
use esp32s3_ota_api.Basic.{nibble}

-- The fields of `esp_app_desc_t` and of `esp_partition_t` that are printed.
pub record Description : Type 0 where
  pub project_name : CString
  pub version : CString
  pub date : CString
  pub time : CString
  pub idf_ver : CString

pub record Place : Type 0 where
  pub label : CString
  pub address : ℕ  -- uint32_t

-- `printf` with "%08" PRIx32: the last `digits` hexadecimal digits.
abbrev pub hex_digits : ℕ → ℕ → CString
hex_digits zero n = []
hex_digits (suc digits) n = hex_digits digits (n / 16) ++ nibble (n % 16) ∷ []

unfoldable pub identity_lines : Description → Place → CString
identity_lines app_desc running =
    codes "project     : "
    ++ app_desc.project_name
    ++ codes "\n"
    ++ codes "version     : "
    ++ app_desc.version
    ++ codes "\n"
    ++ codes "compiled    : "
    ++ app_desc.date
    ++ codes " "
    ++ app_desc.time
    ++ codes "\n"
    ++ codes "idf version : "
    ++ app_desc.idf_ver
    ++ codes "\n"
    ++ codes "partition   : "
    ++ running.label
    ++ codes " at offset 0x"
    ++ hex_digits 8 running.address
    ++ codes "\n"
