-- ===== src/OnDemand/Command.antt =====
-- examples/on_demand/main/main.c: what the command `ota` leaves behind.
use esp32s3_ota_api.Prelude.{
  some, ℕ, ◌<◌, ◌≡◌, refl, ap, ◌∙◌, inl, inr, Bool, true, ◌||◌, leb, List, arith, length,
  if◌then◌else◌, Bool-cases,
}
use esp32s3_ota_api.Prelude.Lists.{take-all}
use esp32s3_ota_api.Prelude.CString.{CString}
use esp32s3_ota_api.System.{Platform}
use esp32s3_ota_api.OnDemand.{
  ota_url_size, Statics, App, url_of, act, act_all, requested, pending, asked_url, request, cmd_ota,
}
use esp32s3_ota_api.Console.{snprintf_s}
use esp32s3_ota_api.OnDemand.Semaphore.{IsBinary}

module _ (P : Platform) (A : App (P.World)) (given : P.World → Bool) (memory : IsBinary A given)
    (default_url : CString) where
  open P use {World}
  open A use {statics}

  abbrev pub is_refused : List CString → World → Bool
  is_refused args w = (statics w).ota_running || leb ota_url_size (length (url_of default_url args))

  -- What a request leaves: the whole URL, the flag, and a semaphore that the worker can take.
  abbrev pub Requested : CString → ℕ × World → Type 0
  Requested url r =
      (r.0 ≡ 0) × (statics r.1 ≡ record { ota_url = url; ota_running = true }) × (given r.1 ≡ true)

  request-Requested :
      (url : CString) (w : World)
      → length url < ota_url_size
      → Requested url (request P A (some url) w)
  unfolding request act_all pending requested act
  request-Requested url w fits =
      let v = record (statics w) { ota_url = snprintf_s ota_url_size url } in
      (
        refl,
        memory.give_apart _
            ∙ memory.read_back _ _
            ∙ ap (λ (x : Statics). record x { ota_running = true }) (memory.read_back v w)
            ∙ ap (λ (u : CString). record { ota_url = u; ota_running = true })
                (take-all 255 url (omega arith)),
        memory.give_given _,
      )

  pub cmd_ota-refused :
      (args : List CString) (w : World)
      → is_refused args w ≡ true
      → cmd_ota P A default_url args w ≡ (1, w)
  unfolding cmd_ota asked_url request
  cmd_ota-refused args w no_use = ground arith

  -- While a request is pending or being served, and for a URL that does not fit the buffer with its
  -- terminator, the command fails and changes nothing. Otherwise it succeeds: the buffer holds the
  -- whole URL of the first argument, or the default if there is none, the flag is up, and the
  -- semaphore is there for the worker to take.
  pub cmd_ota-Requested :
      (args : List CString) (w : World)
      → if is_refused args w
        then cmd_ota P A default_url args w ≡ (1, w)
        else Requested (url_of default_url args) (cmd_ota P A default_url args w)
  unfolding cmd_ota asked_url request
  cmd_ota-Requested args w = elim (Bool-cases (statics w).ota_running) [
    | inl busy ↦ rw (busy, asked_url) refl
    | inr idle ↦ elim (Bool-cases (leb ota_url_size (length (url_of default_url args)))) [
      | inl long ↦ rw (idle, long, asked_url) refl
      | inr fits ↦ rw (idle, fits, asked_url) (request-Requested _ w (ground arith))
    ]
  ]
