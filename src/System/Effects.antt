-- ===== src/System/Effects.antt =====
-- What a call into the code outside does to the state of an update.
use esp32s3_ota_api.Prelude.{◌≡◌, refl, true, ◌∷◌}
use esp32s3_ota_api.System.{Platform, Mark, Sys, external}
use esp32s3_ota_api.System.Sharing.{
  IsMine, IsCoherent, interfere-IsMine, interfere-IsCoherent, interfere-keeps_abort,
}

module _ (P : Platform) {A : Type 0} (op : P.World → A × P.World) (note : A → Mark)
    (s : Sys P.World) where
  pub external-result : (external P op note s).0 ≡ (op s.world).0
  unfolding external
  external-result = refl

  pub external-world : (external P op note s).1.world ≡ (op s.world).1
  unfolding external
  external-world = refl

  pub external-trace : (external P op note s).1.trace ≡ note (op s.world).0 ∷ s.trace
  unfolding external
  external-trace = refl

  pub external-IsMine : IsMine s.shared → IsMine (external P op note s).1.shared
  unfolding external
  external-IsMine h = interfere-IsMine _ s.shared h

  pub external-IsCoherent : IsCoherent s.shared → IsCoherent (external P op note s).1.shared
  unfolding external
  external-IsCoherent h = interfere-IsCoherent _ s.shared h

  pub external-keeps_abort :
      IsMine s.shared
      → s.shared.slot.abort_requested ≡ true
      → (external P op note s).1.shared.slot.abort_requested ≡ true
  unfolding external
  external-keeps_abort h a = interfere-keeps_abort _ s.shared h a
