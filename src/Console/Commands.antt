-- ===== src/Console/Commands.antt =====
-- examples/advanced/main/main.c: what the `ota` command leaves behind, accepted or not.
use esp32s3_ota_api.Prelude.{
  ℕ, ◌<◌, ◌≡◌, refl, ap, ◌∙◌, inl, inr, Bool, true, false, some, List, arith, ◌==◌, leb, length,
  ◌||◌, if◌then◌else◌, Bool-cases,
}
use esp32s3_ota_api.Prelude.Lists.{take-all}
use esp32s3_ota_api.Prelude.CString.{CString}
use esp32s3_ota_api.Err.{Err, is_ok}
use esp32s3_ota_api.Config.{Kconfig, Config}
use esp32s3_ota_api.System.{Platform}
use esp32s3_ota_api.Task.{Rtos, State, start_task}
use esp32s3_ota_api.Task.Apart.{IsApart, start_task-Same}
use esp32s3_ota_api.Task.Laws.{IsFresh, HandsOver, start_task-heap}
use esp32s3_ota_api.Console.{
  ota_url_size, Statics, Options, App, parse, snprintf_s, ota_config, set, launching, act, lower,
  perform, is_busy, asked, launch, cmd_ota,
}

-- The variables are memory: what is stored can be read back and replaces what was stored before,
-- and it is apart from what
-- `ota_api_start_task` and `example_disconnect` work on.
pub record IsMemory (P : Platform) (A : App (P.World)) (R : Rtos P) : Type 0 where
  pub read_back : (v : Statics) (w : P.World) → A.statics (A.store v w) ≡ v
  pub overwrite : (u v : Statics) (w : P.World) → A.store v (A.store u w) ≡ A.store v w
  pub apart : IsApart P R A.statics
  pub shut_down_apart : (w : P.World) → A.statics (A.shut_down w) ≡ A.statics w

module _ (P : Platform) (A : App (P.World)) (R : Rtos P) (K : Kconfig)
    (memory : IsMemory P A R) where
  open P use {World}
  open A use {statics}

  module _ (options : Options) where
    -- The variables of an accepted command.
    abbrev pub accepted : CString → Bool → State P → Statics
    accepted url force s = record (statics s.sys.world) {
      ota_url = url;
      force_update = force;
      ota_pending = true;
    }

    -- What is left once the URL fits the buffer and no update is pending.
    abbrev pub Launched : CString → Bool → State P → ℕ × State P → Type 0
    Launched url force s r =
        (r.1.sys.shared ≡ s.sys.shared)
        × (if r.0 == 0
            then (statics r.1.sys.world ≡ accepted url force s)
              × HandsOver P R K (ota_config P A options url)
                  (set P A R K options (accepted url force s) s) r.1
            else (statics r.1.sys.world ≡ record (accepted url force s) { ota_pending = false })
              × (r.1.heap ≡ s.heap))

    -- After `ota_api_start_task`.
    answer : Err × State P → ℕ × State P
    answer (err, s) = if is_ok err then (0, s) else (1, lower P A R K options s)

    abbrev url_config : CString → Config World
    url_config url = ota_config P A options url

    -- The three stores of the command, one after another.
    perform-answer :
        (url : CString) (force : Bool) (s : State P)
        → let v = accepted (snprintf_s ota_url_size url) force s in
          perform P A R K options (launching url force) s
          ≡ answer (start_task P R K (some (url_config v.ota_url)) (set P A R K options v s))
    unfolding launching perform act answer
    perform-answer url force s =
        let put : Statics → State P → State P = set P A R K options in
        let of_state : State P → Statics = λ t. statics t.sys.world in
        let over : (u v : Statics) → put v (put u s) ≡ put v s = λ u v.
          ap (λ (w : World). record s { sys = record s.sys { world = w } })
            (memory.overwrite u v s.sys.world) in
        let v1 : Statics = record (of_state s) { ota_url = snprintf_s ota_url_size url } in
        let v2 : Statics = record v1 { force_update = force } in
        let v3 : Statics = record v2 { ota_pending = true } in
        let second : put (record (of_state (put v1 s)) { force_update = force }) (put v1 s)
            ≡ put v2 s =
          ap (λ (x : Statics). put (record x { force_update = force }) (put v1 s))
            (memory.read_back v1 s.sys.world)
          ∙ over v1 v2 in
        let raise : State P → State P = λ t. put (record (of_state t) { ota_pending = true }) t in
        let third : raise (put v2 s) ≡ put v3 s =
          ap (λ (x : Statics). put (record x { ota_pending = true }) (put v2 s))
            (memory.read_back v2 s.sys.world)
          ∙ over v2 v3 in
        ap (λ (t : State P). answer (start_task P R K (some (url_config (of_state t).ota_url)) t))
          (ap raise second ∙ third)
        ∙ ap (λ (u : Statics). answer (start_task P R K (some (url_config u.ota_url)) (put v3 s)))
            (memory.read_back v3 s.sys.world)

    launch-Launched :
        (url : CString) (force : Bool) (s : State P)
        → length url < ota_url_size
        → IsFresh P R K (set P A R K options (accepted url force s) s)
        → Launched url force s (perform P A R K options (launching url force) s)
    unfolding answer lower
    launch-Launched url force s fits fresh =
        let v = accepted url force s in
        let s1 = set P A R K options v s in
        let t = start_task P R K (some (ota_config P A options url)) s1 in
        let same = start_task-Same P R K statics memory.apart (ota_config P A options url) s1 in
        let heap = start_task-heap P R K (ota_config P A options url) s1 fresh in
        let kept : statics t.1.sys.world ≡ v = same.values ∙ memory.read_back v s.sys.world in
        rw (perform-answer url force s, take-all 255 url (omega arith))
          (elim (Bool-cases (is_ok t.0)) [
            | inl ok ↦ rw (ok, answer) (same.slot, (kept, (rw ok at heap)))
            | inr bad ↦
                let freed : (t.1.heap ≡ s.heap) × _ = (rw bad at heap) in
                rw (bad, answer)
                  (
                    same.slot,
                    (
                      memory.read_back _ _
                          ∙ ap (λ (x : Statics). record x { ota_pending = false }) kept,
                      freed.0,
                    ),
                  )
          ])

    -- What the command leaves behind, by its result.
    abbrev pub Commanded : List CString → State P → ℕ × State P → Type 0
    Commanded args s r =
        let (url, force) = parse args options.default_url false in
        if is_busy P A R K options s || leb ota_url_size (length url)
        then r ≡ (1, s)
        else Launched url force s r

    -- While an update is pending or running, and for a URL that does not fit the buffer with its
    -- terminator, the command fails and changes nothing. Otherwise the slot is left alone; and if
    -- the command succeeds, the buffer holds the whole URL of the arguments, the other variables
    -- the wish to force and that an update is pending, and the heap one block more, whose config
    -- has that URL and goes to the new task; if it fails, nothing is pending and the heap is as it
    -- was. It is taken that `malloc` gives out a block that is not in use, and that the variables
    -- are memory apart from what the calls work on.
    pub cmd_ota-Commanded :
        (args : List CString) (s : State P)
        → ((v : Statics) → IsFresh P R K (set P A R K options v s))
        → Commanded args s (cmd_ota P A R K options args s)
    unfolding cmd_ota asked launch
    cmd_ota-Commanded args s fresh =
        let p = parse args options.default_url false in
        elim (Bool-cases (is_busy P A R K options s)) [
          | inl busy ↦ rw (busy, asked) refl
          | inr idle ↦ elim (Bool-cases (leb ota_url_size (length p.0))) [
            | inl long ↦ rw (idle, long, asked) refl
            | inr fits ↦
                rw (idle, fits, asked)
                  (launch-Launched p.0 p.1 s (ground arith) (fresh (accepted p.0 p.1 s)))
          ]
        ]
