-- ===== src/OnDemand/Worker.antt =====
-- examples/on_demand/main/main.c: the worker against the requests.
use esp32s3_ota_api.Prelude.{
  ℕ, ◌≡◌, refl, ap, ◌∙◌, inl, inr, Bool, true, false, Option, some, List, [], arith, Bool-cases,
}
use esp32s3_ota_api.Prelude.CString.{CString}
use esp32s3_ota_api.Err.{Err, is_ok}
use esp32s3_ota_api.Config.{Kconfig}
use esp32s3_ota_api.System.{Platform, Sys}
use esp32s3_ota_api.Update.Termination.{IsFinite, update-Returns}
use esp32s3_ota_api.Update.Memory.{IsUntouched, update-silent}
use esp32s3_ota_api.OnDemand.{
  Statics, App, url_of, cmd_ota, Round, waits, continues, restarts, ota_config, conclude, concluded,
  serve, worker_round,
}
use esp32s3_ota_api.OnDemand.Command.{is_refused, Requested, cmd_ota-refused, cmd_ota-Requested}
use esp32s3_ota_api.OnDemand.Semaphore.{IsBinary}

module _ (P : Platform) (A : App (P.World)) (given : P.World → Bool) (memory : IsBinary A given)
    (skip : Bool) (K : Kconfig) where
  open P use {World}
  open A use {statics}

  -- What of the application's memory esp_https_ota does not touch.
  abbrev pub own : World → Statics × Bool
  own w = (statics w, given w)

  -- A round that served a request: the device restarts, or the worker is back at the top, and the
  -- flag and the semaphore are down, so that the next command finds what the first one found.
  abbrev pub Served : CString → Round × Sys World → Type 0
  Served url (waits, s) = ⊥
  Served url (continues, s) =
      (statics s.world ≡ record { ota_url = url; ota_running = false }) × (given s.world ≡ false)
  Served url (restarts, s) = given s.world ≡ false

  conclude-Served :
      (v : Statics) (err : Err) (s : Sys World)
      → own s.world ≡ (v, false)
      → Served v.ota_url (conclude P A skip K (err, s))
  unfolding conclude
  conclude-Served v err s kept =
      let variables = ap (λ (x : Statics × Bool). x.0) kept in
      let down = ap (λ (x : Statics × Bool). x.1) kept in
      elim (Bool-cases (is_ok err)) [
        | inl ok ↦ rw (ok, conclude) (memory.shut_down_given _ ∙ down)
        | inr bad ↦
            rw (bad, conclude)
              (
                memory.read_back _ _
                    ∙ ap (λ (x : Statics). record x { ota_running = false }) variables,
                memory.store_given _ _ ∙ down,
              )
      ]

  concluded-some :
      (o : Option (Err × Sys World)) (r : Err × Sys World)
      → o ≡ some r
      → concluded P A skip K o ≡ some (conclude P A skip K r)
  unfolding concluded
  concluded-some o r e = rw e refl

  -- A round of the worker that is over, whatever fuel it took.
  abbrev pub Serves : CString → Sys World → Type 0
  Serves url s =
      (fuel : ℕ) × (r : Round × Sys World) × (worker_round P A skip K fuel s ≡ some r)
      × Served url r

  module _ (left : World → ℕ) (fin : (url : CString) → IsFinite P (ota_config P A skip K url) left)
      (apart : (url : CString) → IsUntouched P (ota_config P A skip K url) own) where
    serve-Served :
        (s : Sys World)
        → s.shared.slot.running ≡ false
        → given s.world ≡ false
        → (fuel : ℕ) × (r : Round × Sys World) × (serve P A skip K fuel s ≡ some r)
          × Served (statics s.world).ota_url r
    unfolding serve
    serve-Served s free down =
        let url = (statics s.world).ota_url in
        let config = ota_config P A skip K url in
        let (fuel, over) = update-Returns P config left (fin url) K s in
        let (r, ends) = over in
        let same = update-silent P K config own (apart url) fuel url s r refl refl free ends in
        (
          fuel,
          conclude P A skip K r,
          concluded-some _ r ends,
          conclude-Served (statics s.world) r.0 r.1
              (same ∙ ap (λ (x : Bool). (statics s.world, x)) down),
        )

    worker_round-Serves :
        (s : Sys World)
        → s.shared.slot.running ≡ false
        → given s.world ≡ true
        → Serves (statics s.world).ota_url s
    unfolding worker_round
    worker_round-Serves s free up =
        let (w, takes, down, same) = memory.take_given s.world up in
        let s1 : Sys World = record s { world = w; trace = [] } in
        let (fuel, r, ends, served) = serve-Served s1 free down in
        (fuel, r, rw (takes, worker_round) ends, rw (← ap (λ (x : Statics). x.ota_url) same) served)

    -- A request is not lost: if the command `ota` succeeds while no other update has the slot, the
    -- worker takes the semaphore, and its round comes to an end. Then the device restarts, or the
    -- flag is down again and the semaphore cannot be taken, with the URL of the command in the
    -- buffer, so that the next command is heard. It is taken that each chunk after which more is to
    -- come leaves less to fetch, that the semaphore does what is documented, and that esp_https_ota
    -- does not touch the application's memory.
    pub cmd_ota-Serves :
        (default_url : CString) (args : List CString) (s : Sys World)
        → s.shared.slot.running ≡ false
        → (cmd_ota P A default_url args s.world).0 ≡ 0
        → Serves
            (url_of default_url args)
            (record s { world = (cmd_ota P A default_url args s.world).1 })
    cmd_ota-Serves default_url args s free accepted =
        let r = cmd_ota P A default_url args s.world in
        let outcome = cmd_ota-Requested P A given memory default_url args s.world in
        elim (Bool-cases (is_refused P A given memory default_url args s.world)) [
          | inl no_use ↦
              let refused = cmd_ota-refused P A given memory default_url args s.world no_use in
              absurd (ground (arith, accepted, refused))
          | inr taken ↦
              let requested : Requested P A given memory default_url (url_of default_url args) r =
                rw taken at outcome in
              rw (← ap (λ (x : Statics). x.ota_url) requested.1)
                (worker_round-Serves (record s { world = r.1 }) free requested.2)
        ]
