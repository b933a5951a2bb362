-- ===== src/Slot/Lock.antt =====
-- src/ota-api-state.c one access to a variable at a time: any number of tasks, and the critical
-- sections of `s_state_lock`.
pub mod Sections
pub mod Invariant
pub mod Refinement
pub mod Length
mod Tests
use esp32s3_ota_api.Prelude.{
  ℕ, ◌≡◌, Bool, true, false, Option, none, some, List, [], ◌∷◌, if◌then◌else◌,
}
use esp32s3_ota_api.Err.{esp_ok, invalid_state}
use esp32s3_ota_api.Slot.{Slot, initial}
use esp32s3_ota_api.Slot.Spec.{
  Call, claim, release, requested, request, running, Answer, flag, code, nothing,
}
use esp32s3_ota_api.Slot.Exclusion.{update}

-- What a function does between `portENTER_CRITICAL` and `portEXIT_CRITICAL`, and the result that it
-- returns then.
pub data Section : Type 0 where
  load_running load_abort : (Bool → Section) → Section
  store_running store_abort : Bool → Section → Section
  exit : Answer → Section

pub section_of : Call → Section
section_of claim = load_running λ s_running.
    if s_running
    then exit (flag false)
    else store_running true (store_abort false (exit (flag true)))
section_of release = store_running false (store_abort false (exit nothing))
section_of requested = load_abort λ s_abort_requested. exit (flag s_abort_requested)
section_of request = load_running λ s_running.
    if s_running then store_abort true (exit (code esp_ok)) else exit (code invalid_state)
section_of running = load_running λ s_running. exit (flag s_running)

-- One access.
abbrev pub access : Section → Slot → Section × Slot
access (load_running k) s = (k s.running, s)
access (load_abort k) s = (k s.abort_requested, s)
access (store_running b k) s = (k, record s { running = b })
access (store_abort b k) s = (k, record s { abort_requested = b })
access (exit a) s = (exit a, s)

-- Where a task is: in no call, before the critical section, in it, or behind it.
pub data Task : Type 0 where
  outside : Task
  enters : Call → Task
  inside : Call → Section → Task
  leaves : Call → Answer → Task

-- The flags, the task that has the lock, the tasks, and the calls in the order in which they left
-- their sections, the latest first, of which the source keeps no record.
pub record Cores : Type 0 where
  pub slot : Slot
  pub lock : Option ℕ
  pub tasks : ℕ → Task
  pub log : List (Call × Answer)

abbrev pub boot : Cores
boot = record { slot = initial; lock = none; tasks = λ _. outside; log = [] }

pub data Step (s : Cores) : Cores → Type 0 where
  calls :
      (i : ℕ) (c : Call)
      → s.tasks i ≡ outside
      → Step s (record s { tasks = update s.tasks i (enters c) })
  locks :
      (i : ℕ) (c : Call)
      → s.tasks i ≡ enters c
      → s.lock ≡ none
      → Step s (record s { tasks = update s.tasks i (inside c (section_of c)); lock = some i })
  accesses :
      (i : ℕ) (c : Call) (k : Section)
      → s.tasks i ≡ inside c k
      → Step s (record s {
        tasks = update s.tasks i (inside c (access k s.slot).0);
        slot = (access k s.slot).1;
      })
  unlocks :
      (i : ℕ) (c : Call) (a : Answer)
      → s.tasks i ≡ inside c (exit a)
      → Step s
          (record s { tasks = update s.tasks i (leaves c a); lock = none; log = (c, a) ∷ s.log })
  returns :
      (i : ℕ) (c : Call) (a : Answer)
      → s.tasks i ≡ leaves c a
      → Step s (record s { tasks = update s.tasks i outside })

pub data Reach : Cores → Type 0 where
  start : Reach boot
  later : {s t : Cores} → Reach s → Step s t → Reach t
