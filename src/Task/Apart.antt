-- ===== src/Task/Apart.antt =====
-- src/ota-api.c, `ota_api_start_task`: what the caller's memory and the update slot see of it.
use esp32s3_ota_api.Prelude.{
  ◌≡◌, refl, ◌∙◌, Option, none, some, inl, inr, Bool-cases, Option-cases, ℕ,
}
use esp32s3_ota_api.Prelude.CString.{CString}
use esp32s3_ota_api.Config.{Kconfig, Config}
use esp32s3_ota_api.System.{Platform}
use esp32s3_ota_api.Task.{Rtos, State, stack_size, priority, spawn, allocate, with_url, start_task}

-- Neither the allocation nor the creation of a task touches what `read` reads.
pub record IsApart (P : Platform) (R : Rtos P) {A : Type 0} (read : P.World → A) : Type 0 where
  pub malloc_apart : (w : P.World) → read (R.malloc w).1 ≡ read w
  pub create_apart :
      (stack copy priority : ℕ) (w : P.World)
      → read (R.task_create stack copy priority w).1 ≡ read w

module _ (P : Platform) (R : Rtos P) (K : Kconfig) {A : Type 0} (read : P.World → A)
    (apart : IsApart P R read) where
  open P use {World}

  -- A call that leaves what is read and the slot alone.
  pub record Same (s s' : State P) : Type 0 where
    pub values : read s'.sys.world ≡ read s.sys.world
    pub slot : s'.sys.shared ≡ s.sys.shared

  spawn-Same :
      (config : Config World) (copy : ℕ) (s : State P) → Same s (spawn P R K config copy s).1
  unfolding spawn
  spawn-Same config copy s =
      let created =
        R.task_create (stack_size P R K config) copy (priority P R K config) s.sys.world in
      elim (Bool-cases created.0) [
        | inl done ↦ rw (done, spawn) (record { values = apart.create_apart _ _ _ _; slot = refl })
        | inr failed ↦
            rw (failed, spawn) (record { values = apart.create_apart _ _ _ _; slot = refl })
      ]

  allocate-Same : (config : Config World) (s : State P) → Same s (allocate P R K config s).1
  unfolding allocate
  allocate-Same config s = elim (Option-cases (R.malloc s.sys.world).0) [
    | inl full ↦
        rw (full, allocate) (record { values = apart.malloc_apart s.sys.world; slot = refl })
    | inr (a, given) ↦
        let spawned =
          spawn-Same config a
            (record { heap = s.heap; sys = record s.sys { world = (R.malloc s.sys.world).1 } }) in
        rw (given, allocate)
          (record { values = spawned.values ∙ apart.malloc_apart s.sys.world; slot = spawned.slot })
  ]

  with_url-Same :
      (url : Option CString) (config : Config World) (s : State P)
      → Same s (with_url P R K url config s).1
  unfolding with_url
  with_url-Same none config s = record { values = refl; slot = refl }
  with_url-Same (some _) config s = allocate-Same config s

  pub start_task-Same :
      (config : Config World) (s : State P) → Same s (start_task P R K (some config) s).1
  unfolding start_task
  start_task-Same config s = with_url-Same config.url config s
