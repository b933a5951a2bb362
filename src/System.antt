-- ===== src/System.antt =====
-- What src/ota-api.c and src/ota-api-report.c run against: esp_https_ota, the clock and the other
-- tasks, as parameters, and the state that an update passes along.
pub mod Sharing
pub mod Effects
pub mod Images
use esp32s3_ota_api.Prelude.{Bool, List, ◌∷◌}
use esp32s3_ota_api.Prelude.Int.{ℤ}
use esp32s3_ota_api.Err.{Err}
use esp32s3_ota_api.Config.{AppDesc, Event}
use esp32s3_ota_api.Http.{HttpConfig, Net}
use esp32s3_ota_api.System.Sharing.{Shared, Foreign, interfere}

-- `esp_https_ota_config_t`; the last two fields are set if partial downloads are built in.
pub record OtaConfig : Type 0 where
  pub http_config : HttpConfig
  pub partial_http_download : Bool
  pub max_http_request_size : ℤ  -- int

-- The code outside the repository. The world is everything that it keeps: the connection, the
-- flash, the clock, the application's data. `meanwhile` lists what the other tasks and the
-- callback ask of the update slot while the call that led to this world was under way.
pub record Platform : Type 1 where
  pub World : Type 0
  pub Handle : Type 0
  pub net : Net
  pub meanwhile : World → List Foreign
  pub https_ota_begin : OtaConfig → World → (Err × Handle) × World
  pub https_ota_get_img_desc : Handle → World → (Err × AppDesc) × World
  pub https_ota_get_image_size : Handle → World → ℤ
  pub https_ota_perform : Handle → World → Err × World
  pub https_ota_is_complete_data_received : Handle → World → Bool
  pub https_ota_get_image_len_read : Handle → World → ℤ
  pub https_ota_abort : Handle → World → Err × World
  pub https_ota_finish : Handle → World → Err × World
  pub timer_get_time : World → ℤ  -- int64_t

-- What an update does that can be seen from outside of it, in the order of the doing.
-- `unreported` is a progress report that reaches no callback.
pub data Mark : Type 0 where
  claimed : Bool → Mark
  configured begun : Err → Mark
  dispatched : Event → Err → Mark
  described performed : Err → Mark
  polled : Bool → Mark
  unreported : Mark
  completed : Bool → Mark
  aborted : Mark
  finished : Err → Mark
  released : Mark

-- The update slot, the world, and the marks so far, the latest first.
pub record Sys (W : Type 0) : Type 0 where
  pub shared : Shared
  pub world : W
  pub trace : List Mark

abbrev pub mark : {W : Type 0} → Mark → Sys W → Sys W
mark m s = record s { trace = m ∷ s.trace }

module _ (P : Platform) where
  open P use {World, meanwhile}

  -- A call into the code outside, during which the other tasks use the slot as they please.
  unfoldable pub external :
      {A : Type 0} → (World → A × World) → (A → Mark) → Sys World → A × Sys World
  external op note s =
      let (a, w) = op s.world in
      (a, record { shared = interfere (meanwhile w) s.shared; world = w; trace = note a ∷ s.trace })
