-- ===== src/Console/Lifetime.antt =====
-- examples/advanced/main/main.c: the URL buffer, which the console writes, against the update task,
-- which reads it.
pub mod Heard
pub mod Fits
pub mod Safety
use esp32s3_ota_api.Prelude.{
  ℕ, ◌≡◌, refl, sym, ap, ◌∙◌, inl, inr, Bool, true, false, ◌||◌, Option, none, some, List, [], ◌∷◌,
  arith, ◌==◌, if◌then◌else◌, Bool-cases,
}
use esp32s3_ota_api.Prelude.CString.{CString}
use esp32s3_ota_api.Err.{Err, is_ok}
use esp32s3_ota_api.Slot.{Slot, initial, claim_update_slot, release_update_slot, is_running, abort}
use esp32s3_ota_api.Config.{Kconfig, Event, is_during}
use esp32s3_ota_api.System.{Platform, Sys}
use esp32s3_ota_api.Task.{Rtos, State}
use esp32s3_ota_api.Update.Refinement.{outcome}
use esp32s3_ota_api.Console.{
  Statics, Options, App, Action, starts_task, launching, act, lower, asked, on_ota_event_cb,
  is_busy, cmd_ota, cmd_abort,
}
use esp32s3_ota_api.Console.Commands.{IsMemory}

-- Where the update task stands. `told` is between the release of the slot and the outcome event
-- that follows it.
pub data Stage : Type 0 where
  gone created updating : Stage
  told : Err → Stage
  rebooting : Stage

-- The task is there, so a pointer to the buffer may be in use.
abbrev pub is_alive : Stage → Bool
is_alive gone = false
is_alive _ = true

-- What the console has still to do for the command that it is in: its accesses, or to lower the flag
-- because the task could not be started.
pub data Doing : Type 0 where
  within : List Action → Doing
  failing : Doing

unfoldable pub to_do : Option (CString × Bool) → Doing
unfolding launching
to_do none = within []
to_do (some (url, force)) = within (launching url force)

abbrev pub after : Err → List Action → Doing
after err actions = if is_ok err then within actions else failing

-- The flag is up, and the task not there: it is about to be created, or could not be.
abbrev pub is_launching : Doing → Bool
is_launching (within (starts_task ∷ _)) = true
is_launching failing = true
is_launching _ = false

abbrev pub task_after : Action → Err → Stage → Stage
task_after starts_task err g = if is_ok err then created else g
task_after _ err g = g

abbrev pub owns_slot : Stage → Bool
owns_slot updating = true
owns_slot _ = false

module _ (P : Platform) (A : App (P.World)) (R : Rtos P) (K : Kconfig) (options : Options)
    (memory : IsMemory P A R) where
  open P use {World}
  open A use {statics}

  abbrev pub with_slot : Slot → State P → State P
  with_slot slot s = record s {
    sys = record s.sys { shared = record s.sys.shared { slot = slot } };
  }

  abbrev pub with_world : World → State P → State P
  with_world w s = record s { sys = record s.sys { world = w } }

  -- One step of the device: a command typed, and its tests; an access of that command to what it
  -- shares with the task, or its call that creates the task; a call of the command `abort`; a step
  -- of the update task; or a change of what is neither the file's variables nor the slot. The
  -- console takes no other command before it is done.
  pub data Step (s : State P) : Doing → Stage → State P → Doing → Stage → Type 0 where
    types_ota :
        (args : List CString) (g : Stage)
        → Step s (within []) g s (to_do (asked P A R K options args s)) g
    acts :
        (action : Action) (actions : List Action) (g : Stage)
        → Step s
            (within (action ∷ actions))
            g
            (act P A R K options action s).1
            (after (act P A R K options action s).0 actions)
            (task_after action (act P A R K options action s).0 g)
    lowers : (g : Stage) → Step s failing g (lower P A R K options s) (within []) g
    aborts : (c : Doing) (g : Stage) → Step s c g (with_slot (cmd_abort s.sys.shared.slot).1 s) c g
    claims :
        (c : Doing)
        → Step s c created
            (with_slot (claim_update_slot s.sys.shared.slot).1 s)
            c
            (if (claim_update_slot s.sys.shared.slot).0 then updating else gone)
    hears :
        (c : Doing) (event : Event)
        → is_during event ≡ true
        → Step s c updating (with_world (on_ota_event_cb P A event 0 s.sys.world).1 s) c updating
    releases :
        (c : Doing) (err : Err)
        → Step s c updating (with_slot (release_update_slot s.sys.shared.slot) s) c (told err)
    tells :
        (c : Doing) (err : Err)
        → Step s c
            (told err)
            (with_world (on_ota_event_cb P A (outcome err) 0 s.sys.world).1 s)
            c
            (if is_ok err then rebooting else gone)
    moves :
        (c : Doing) (g : Stage) (t : State P)
        → t.sys.shared ≡ s.sys.shared
        → statics t.sys.world ≡ statics s.sys.world
        → Step s c g t c g

  -- From the boot on.
  pub data Reach : State P → Doing → Stage → Type 0 where
    boots :
        (s : State P)
        → s.sys.shared.slot ≡ initial
        → (statics s.sys.world).ota_pending ≡ false
        → Reach s (within []) gone
    later :
        {s t : State P} {c d : Doing} {g h : Stage} → Reach s c g → Step s c g t d h → Reach t d h
