-- ===== src/Update/Abort.antt =====
-- src/ota-api.c, the cancellation point: what a request to stop does to a download.
use esp32s3_ota_api.Prelude.{
  ℕ, suc, ◌≡◌, true, false, some, ◌⊎◌, inl, inr, if◌then◌else◌, Bool-cases,
}
use esp32s3_ota_api.Prelude.Int.{ℤ}
use esp32s3_ota_api.Err.{Err, not_finished, is_in_progress}
use esp32s3_ota_api.Slot.{abort_requested}
use esp32s3_ota_api.Config.{Config}
use esp32s3_ota_api.System.{Platform, Sys, mark, external, performed, polled}
use esp32s3_ota_api.System.Sharing.{IsMine}
use esp32s3_ota_api.System.Effects.{external-keeps_abort}
use esp32s3_ota_api.Update.{broke, returned, leave, poll, attend, round, proceed, rounds}

module _ (P : Platform) (handle : P.Handle) (config : Config (P.World)) where
  open P use {World}

  -- The state after one more chunk.
  abbrev chunk : Sys World → Err × Sys World
  chunk s = external P (P.https_ota_perform handle) performed s

  round-over :
      (total last : ℤ) (s : Sys World)
      → is_in_progress (chunk s).0 ≡ false
      → round P handle config total last s ≡ (leave (broke (chunk s).0 last), (chunk s).1)
  unfolding round
  round-over total last s over = rw (over, round)

  round-stops :
      (total last : ℤ) (s : Sys World)
      → (chunk s).1.shared.slot.abort_requested ≡ true
      → is_in_progress (chunk s).0 ≡ true
      → round P handle config total last s
        ≡ (leave (returned not_finished), mark (polled true) (chunk s).1)
  unfolding round poll attend abort_requested
  round-stops total last s seen more = rw (more, round) (rw (seen, attend))

  -- While the update owns the slot, a request to stop that is made while a chunk is fetched, or
  -- before, at any round of the loop, ends the loop after that chunk with ESP_ERR_NOT_FINISHED,
  -- unless the chunk is the last or fails itself: then the loop ends with what
  -- `esp_https_ota_perform` gave. Either way no progress is reported any more, and no further chunk
  -- is fetched.
  pub rounds-stops :
      (fuel : ℕ) (total last : ℤ) (s : Sys World)
      → IsMine s.shared
      → (s.shared.slot.abort_requested ≡ true) ⊎ ((chunk s).1.shared.slot.abort_requested ≡ true)
      → rounds P (suc fuel) handle config total last s ≡ (
          if is_in_progress (chunk s).0
          then some (returned not_finished, mark (polled true) (chunk s).1)
          else some (broke (chunk s).0 last, (chunk s).1))
  unfolding rounds proceed
  rounds-stops fuel total last s mine asked = elim (Bool-cases (is_in_progress (chunk s).0)) [
    | inl more ↦ rw (round-stops total last s (seen asked) more) (rw more)
    | inr over ↦ rw (round-over total last s over) (rw over)
  ]
    where
      seen :
          (s.shared.slot.abort_requested ≡ true) ⊎ ((chunk s).1.shared.slot.abort_requested ≡ true)
          → (chunk s).1.shared.slot.abort_requested ≡ true
      seen (inl before) =
          external-keeps_abort P (P.https_ota_perform handle) performed s mine before
      seen (inr during) = during
