-- ===== src/OnDemand/Version.antt =====
-- examples/on_demand/main/main.c: the command `version`.
use esp32s3_ota_api.Prelude.{ℕ}
use esp32s3_ota_api.Prelude.CString.{CString}
use esp32s3_ota_api.Version.{Description, Place, identity_lines}

-- With the description of the image and where the running partition lies.
unfoldable pub cmd_version : Description → Place → ℕ × CString
unfolding identity_lines
cmd_version app_desc running = (0, identity_lines app_desc running)
