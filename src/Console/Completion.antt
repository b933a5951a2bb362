-- ===== src/Console/Completion.antt =====
-- examples/advanced/main/main.c: from a command that is accepted to the end of its task.
use esp32s3_ota_api.Prelude.{
  ℕ, ◌≡◌, refl, ap, ◌∙◌, inl, inr, Bool, true, false, ◌||◌, some, List, arith, ◌==◌, leb, length,
  if◌then◌else◌, Bool-cases,
}
use esp32s3_ota_api.Prelude.CString.{CString}
use esp32s3_ota_api.Err.{Err, is_ok}
use esp32s3_ota_api.Config.{Kconfig}
use esp32s3_ota_api.System.{Platform, Sys}
use esp32s3_ota_api.System.Sharing.{Shared}
use esp32s3_ota_api.Update.Refinement.{outcome}
use esp32s3_ota_api.Update.Termination.{IsFinite, update-Returns}
use esp32s3_ota_api.Update.Memory.{IsUntouched, update-told}
use esp32s3_ota_api.Task.{Rtos, State, End, restarted, deleted, fault, finish, ota_task}
use esp32s3_ota_api.Task.Laws.{IsFresh, HandsOver}
use esp32s3_ota_api.Console.{
  ota_url_size, Statics, Options, App, parse, on_ota_event_cb, ota_config, set, is_busy, cmd_ota,
}
use esp32s3_ota_api.Console.Commands.{IsMemory, Launched, cmd_ota-Commanded}
use esp32s3_ota_api.Console.Lifetime.Heard.{outcome-pending}

pub both : {a b : Bool} {s t : CString} → a ≡ b → s ≡ t → ◌≡◌ {A = Bool × CString} (a, s) (b, t)
both p q = rw (p, q) refl

module _ (P : Platform) (A : App (P.World)) (R : Rtos P) (K : Kconfig) (options : Options)
    (memory : IsMemory P A R) where
  open P use {World}
  open A use {statics}

  -- What of the file's variables an update leaves alone until its outcome.
  abbrev pub kept : World → Bool × CString
  kept w = ((statics w).ota_pending, (statics w).ota_url)

  -- The end of the task: the device restarts and takes no command any more, or the task is deleted
  -- and the next command is heard.
  abbrev pub Completed : CString → State P → End × State P → Type 0
  Completed url s (fault, t) = ⊥
  Completed url s (restarted, t) = (kept t.sys.world ≡ (true, url)) × (t.heap ≡ s.heap)
  Completed url s (deleted, t) = (kept t.sys.world ≡ (false, url)) × (t.heap ≡ s.heap)

  -- The task that was given `copy` comes to its end.
  abbrev pub Completes : CString → State P → ℕ → State P → Type 0
  Completes url s copy t =
      (fuel : ℕ) × (r : End × State P) × (ota_task P K fuel copy t ≡ some r) × Completed url s r

  ended : Err × Sys World → State P → End × State P
  ended x s = (if is_ok x.0 then restarted else deleted, record { heap = s.heap; sys = x.1 })

  ended-Completed :
      (url : CString) (s : State P) (x : Err × Sys World) (w : World)
      → kept w ≡ (true, url)
      → x.1.world ≡ (on_ota_event_cb P A (outcome x.0) 0 w).1
      → Completed url s (ended x s)
  unfolding ended
  ended-Completed url s x w before told =
      let (pending, same) = outcome-pending P A R K options memory x.0 w in
      let flag : (statics x.1.world).ota_pending ≡ (if is_ok x.0 then true else false) =
        ap (λ v. (statics v).ota_pending) told
        ∙ pending
        ∙ ap (λ (b : Bool). if is_ok x.0 then b else false)
            (ap (λ (v : Bool × CString). v.0) before) in
      let buffer : (statics x.1.world).ota_url ≡ url =
        ap (λ v. (statics v).ota_url) told ∙ same ∙ ap (λ (v : Bool × CString). v.1) before in
      elim (Bool-cases (is_ok x.0)) [
        | inl ok ↦ rw (ok, ended) (both (flag ∙ rw ok refl) buffer, refl)
        | inr bad ↦ rw (bad, ended) (both (flag ∙ rw bad refl) buffer, refl)
      ]

  -- What is left to assume: the image is finite, and esp_https_ota leaves the variables alone.
  module _ (left : World → ℕ) (fin : (url : CString) → IsFinite P (ota_config P A options url) left)
      (apart : (url : CString) → IsUntouched P (ota_config P A options url) kept) where
    handed-Completes :
        (url : CString) (s t : State P)
        → t.sys.shared.slot.running ≡ false
        → kept t.sys.world ≡ (true, url)
        → (h : HandsOver P R K (ota_config P A options url) s t) → Completes url s h.0 t
    unfolding finish ended
    handed-Completes url s t free before (copy, unused, heap, runs) =
        let config = ota_config P A options url in
        let (fuel, over) = update-Returns P config left (fin url) K t.sys in
        let (x, ends) = over in
        let (w, same, told) =
          update-told P K config kept (apart url) fuel url t.sys x (on_ota_event_cb P A) refl refl
            free ends in
        (
          fuel,
          ended x s,
          runs fuel ∙ rw (ends, finish) refl,
          ended-Completed url s x w (same ∙ before) told,
        )

    -- An accepted command comes to an end. If the command `ota` succeeds while no update has the
    -- slot, there is a block on the heap, and the task that is created with it ends: in the restart
    -- of the device, with the pending flag still up, or deleted, with the flag down, so that the
    -- next command is heard. The buffer holds the URL of the command until then, and the heap is
    -- back as it was. It is taken that `malloc` gives out a block that is not in use, that the
    -- variables are memory apart from what the calls work on, and that each chunk after which more
    -- is to come leaves less to fetch, while the callback fetches nothing back.
    pub cmd_ota-Completes :
        (args : List CString) (s : State P)
        → ((v : Statics) → IsFresh P R K (set P A R K options v s))
        → s.sys.shared.slot.running ≡ false
        → (cmd_ota P A R K options args s).0 ≡ 0
        → (copy : ℕ) × Completes
            (parse args options.default_url false).0
            s
            copy
            (cmd_ota P A R K options args s).1
    cmd_ota-Completes args s fresh free done =
        let r = cmd_ota P A R K options args s in
        let p = parse args options.default_url false in
        let outcome = cmd_ota-Commanded P A R K memory options args s fresh in
        elim (Bool-cases (is_busy P A R K options s || leb ota_url_size (length p.0))) [
          | inl no_use ↦
              let refused : r ≡ (1, s) = rw no_use at outcome in
              absurd (ground (arith, done, refused))
          | inr taken ↦
              let launched : Launched P A R K memory options p.0 p.1 s r = rw taken at outcome in
              let ok : (r.0 == 0) ≡ true = ground (arith, done) in
              let result = launched.1 in
              let (variables, handed) = (rw ok at result) in
              (
                handed.0,
                handed-Completes p.0 s r.1 (ap (λ (x : Shared). x.slot.running) launched.0 ∙ free)
                    (ap (λ (v : Statics). (v.ota_pending, v.ota_url)) variables) handed,
              )
        ]
