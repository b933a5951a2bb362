-- ===== src/Task/Laws.antt =====
-- src/ota-api.c: the life of the config's copy on the heap.
use mathlib.Core.Path.{fun_ext, subst}
use esp32s3_ota_api.Prelude.{
  ℕ, ◌≡◌, refl, true, Option, none, some, arith, if◌then◌else◌, inl, inr, Bool-cases, Option-cases,
  ◌⊎◌,
}
use esp32s3_ota_api.Prelude.CString.{CString}
use esp32s3_ota_api.Err.{Err, invalid_arg, no_mem, is_ok}
use esp32s3_ota_api.Config.{Kconfig, Config}
use esp32s3_ota_api.System.{Platform, Sys}
use esp32s3_ota_api.Update.{update}
use esp32s3_ota_api.Task.{
  Rtos, State, put, stack_size, priority, spawn, allocate, with_url, start_task, finish, ota_task,
}

module _ (P : Platform) (R : Rtos P) (K : Kconfig) where
  open P use {World}

  -- `malloc` gives out a block that is not in use.
  abbrev pub IsFresh : State P → Type 0
  IsFresh s = (a : ℕ) → (R.malloc s.sys.world).0 ≡ some a → s.heap a ≡ none

  pub put-put :
      (heap : ℕ → Option (Config World)) (a : ℕ) (v : Option (Config World))
      → heap a ≡ none
      → put P (put P heap a v) a none ≡ heap
  put-put heap a v free = fun_ext λ b. ground (arith, free)

  -- What a call that created a task leaves: one block more than before, that holds the caller's
  -- config; the task that takes it runs the update with just that config, and gives it back.
  abbrev pub HandsOver : Config World → State P → State P → Type 0
  HandsOver config s s' =
      (copy : ℕ) × (s.heap copy ≡ none)
      × (s'.heap ≡ put P s.heap copy (some config))
      × ((fuel : ℕ)
          → ota_task P K fuel copy s' ≡ finish P (update P K fuel (some config) s'.sys) s.heap)

  pub ota_task-copy :
      (config : Config World) (fuel copy : ℕ) (heap : ℕ → Option (Config World)) (sys : Sys World)
      → heap copy ≡ none
      → ota_task P K fuel copy (record { heap = put P heap copy (some config); sys = sys })
        ≡ finish P (update P K fuel (some config) sys) heap
  unfolding ota_task
  ota_task-copy config fuel copy heap sys free =
      let held : put P heap copy (some config) copy ≡ some config = ground arith in
      rw (held, ota_task) (rw (put-put heap copy (some config) free))

  -- What `ota_api_start_task` leaves for each of its results.
  abbrev pub Hands : Config World → State P → Err × State P → Type 0
  Hands config s r =
      if is_ok r.0
      then HandsOver config s r.1
      else (r.1.heap ≡ s.heap) × ((r.0 ≡ no_mem) ⊎ (r.0 ≡ invalid_arg))

  spawn-Hands :
      (config : Config World) (copy : ℕ) (s : State P)
      → s.heap copy ≡ none
      → Hands config s (spawn P R K config copy s)
  unfolding spawn
  spawn-Hands config copy s free =
      let x = R.task_create (stack_size P R K config) copy (priority P R K config) s.sys.world in
      elim (Bool-cases x.0) [
        | inl created ↦
            rw (created, spawn)
              (copy, free, refl, λ fuel. ota_task-copy config fuel copy s.heap _ free)
        | inr failed ↦ rw (failed, spawn) (put-put s.heap copy (some config) free, inl refl)
      ]

  allocate-Hands :
      (config : Config World) (s : State P) → IsFresh s → Hands config s (allocate P R K config s)
  unfolding allocate
  allocate-Hands config s fresh = elim (Option-cases (R.malloc s.sys.world).0) [
    | inl full ↦ rw (full, allocate) (refl, inl refl)
    | inr (a, given) ↦ rw (given, allocate) (spawn-Hands config a _ (fresh a given))
  ]

  with_url-Hands :
      (url : Option CString) (config : Config World) (s : State P)
      → IsFresh s
      → Hands config s (with_url P R K url config s)
  unfolding with_url
  with_url-Hands none config s fresh = (refl, inr refl)
  with_url-Hands (some _) config s fresh = allocate-Hands config s fresh

  -- The config's copy neither leaks nor is freed twice. If `ota_api_start_task` returns ESP_OK, the
  -- heap holds one block more, with a copy of the caller's config, and the task started on that
  -- block runs the update with the caller's config and leaves the heap as it was before the call;
  -- if not, the heap is as it was and the result is ESP_ERR_NO_MEM or ESP_ERR_INVALID_ARG. It is
  -- taken that `malloc` gives out a block that is not in use.
  pub start_task-heap :
      (config : Config World) (s : State P)
      → IsFresh s
      → Hands config s (start_task P R K (some config) s)
  unfolding start_task
  start_task-heap config s fresh = with_url-Hands config.url config s fresh

  pub start_task-HandsOver :
      (config : Config World) (s : State P)
      → IsFresh s
      → is_ok (start_task P R K (some config) s).0 ≡ true
      → HandsOver config s (start_task P R K (some config) s).1
  start_task-HandsOver config s fresh ok =
      let r = start_task P R K (some config) s in
      subst
        (λ t.
          if t
          then HandsOver config s r.1
          else (r.1.heap ≡ s.heap) × ((r.0 ≡ no_mem) ⊎ (r.0 ≡ invalid_arg)))
        ok (start_task-heap config s fresh)
