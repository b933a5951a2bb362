-- ===== src/Slot/Lock/Length.antt =====
-- src/ota-api-state.c: how many accesses a critical section makes.
use native.Mathlib.Decide.{ℕ_discrete}
use esp32s3_ota_api.Prelude.{ℕ, zero, suc, ◌≡◌, Bool, true, false, arith, if◌then◌else◌}
use esp32s3_ota_api.Slot.{Slot}
use esp32s3_ota_api.Slot.Spec.{Call, claim, release, requested, request, running}
use esp32s3_ota_api.Slot.Exclusion.{update}
use esp32s3_ota_api.Slot.Lock.{
  Section, load_running, load_abort, store_running, store_abort, exit, section_of, access, Task,
  outside, enters, inside, leaves, Cores, Step, calls, locks, accesses, unlocks, returns, Reach,
  start, later,
}

-- No more than that many accesses to go.
abbrev pub Within : ℕ → Section → Type 0
Within n (exit a) = Unit
Within zero (load_running k) = ⊥
Within zero (load_abort k) = ⊥
Within zero (store_running b k) = ⊥
Within zero (store_abort b k) = ⊥
Within (suc n) (load_running k) = (b : Bool) → Within n (k b)
Within (suc n) (load_abort k) = (b : Bool) → Within n (k b)
Within (suc n) (store_running b k) = Within n k
Within (suc n) (store_abort b k) = Within n k

if-Within :
    (n : ℕ) (b : Bool) (k l : Section) → Within n k → Within n l → Within n (if b then k else l)
if-Within n true k l p q = p
if-Within n false k l p q = q

pub section_of-Within : (c : Call) → Within 3 (section_of c)
unfolding section_of
section_of-Within claim = λ b. if-Within 2 b _ _ tt tt
section_of-Within release = tt
section_of-Within requested = λ b. tt
section_of-Within request = λ b. if-Within 2 b _ _ tt tt
section_of-Within running = λ b. tt

weaken : (n : ℕ) (k : Section) → Within n k → Within (suc n) k
weaken n (exit a) h = tt
weaken zero (load_running k) h = absurd h
weaken zero (load_abort k) h = absurd h
weaken zero (store_running b k) h = absurd h
weaken zero (store_abort b k) h = absurd h
weaken (suc n) (load_running k) h = λ b. weaken n (k b) (h b)
weaken (suc n) (load_abort k) h = λ b. weaken n (k b) (h b)
weaken (suc n) (store_running b k) h = weaken n k h
weaken (suc n) (store_abort b k) h = weaken n k h

access-Within : (n : ℕ) (k : Section) (s : Slot) → Within n k → Within n (access k s).0
access-Within n (exit a) s h = tt
access-Within zero (load_running k) s h = absurd h
access-Within zero (load_abort k) s h = absurd h
access-Within zero (store_running b k) s h = absurd h
access-Within zero (store_abort b k) s h = absurd h
access-Within (suc n) (load_running k) s h = weaken n (k s.running) (h s.running)
access-Within (suc n) (load_abort k) s h = weaken n (k s.abort_requested) (h s.abort_requested)
access-Within (suc n) (store_running b k) s h = weaken n k h
access-Within (suc n) (store_abort b k) s h = weaken n k h

abbrev pub IsShort : Task → Type 0
IsShort (inside c k) = Within 3 k
IsShort _ = Unit

update-IsShort :
    (tasks : ℕ → Task) (i : ℕ) (v : Task)
    → IsShort v
    → ((j : ℕ) → IsShort (tasks j))
    → (j : ℕ) → IsShort (update tasks i v j)
update-IsShort tasks i v here there j = elim (ℕ_discrete i j) [
  | yes e ↦ let now : update tasks i v j ≡ v = ground arith in rw now here
  | no n ↦ let as_before : update tasks i v j ≡ tasks j = ground arith in rw as_before (there j)
]

Step-IsShort :
    {s t : Cores} → Step s t → ((j : ℕ) → IsShort (s.tasks j)) → (j : ℕ) → IsShort (t.tasks j)
Step-IsShort {s} (calls i c out) h = update-IsShort s.tasks i (enters c) tt h
Step-IsShort {s} (locks i c ready free) h =
    update-IsShort s.tasks i (inside c (section_of c)) (section_of-Within c) h
Step-IsShort {s} (accesses i c k at) h =
    let short : Within 3 k = let before : IsShort (inside c k) = rw at at (h i) in before in
    update-IsShort s.tasks i (inside c (access k s.slot).0) (access-Within 3 k s.slot short) h
Step-IsShort {s} (unlocks i c a at) h = update-IsShort s.tasks i (leaves c a) tt h
Step-IsShort {s} (returns i c a at) h = update-IsShort s.tasks i outside tt h

pub Reach-IsShort : {s : Cores} → Reach s → (j : ℕ) → IsShort (s.tasks j)
Reach-IsShort start j = tt
Reach-IsShort (later r st) j = Step-IsShort st (Reach-IsShort r) j
