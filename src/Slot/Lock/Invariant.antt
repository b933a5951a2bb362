-- ===== src/Slot/Lock/Invariant.antt =====
-- src/ota-api-state.c: the lock, its owner and the calls so far, and moves outside and inside a
-- section.
use mathlib.Core.List.{Memᴰ}
use esp32s3_ota_api.Prelude.{
  ℕ, ◌≡◌, sym, ap, ◌∙◌, Bool, true, false, Option, none, some, List, [], ◌∷◌, arith,
}
use esp32s3_ota_api.Slot.{Slot}
use esp32s3_ota_api.Slot.Spec.{Call, Answer, answer, after, promised}
use native.Mathlib.Decide.{ℕ_discrete}
use esp32s3_ota_api.Slot.Exclusion.{update}
use esp32s3_ota_api.Slot.Lock.{Task, outside, enters, inside, leaves, Cores}
use esp32s3_ota_api.Slot.Lock.Sections.{finish}

abbrev pub history : List (Call × Answer) → List Call
history [] = []
history ((c, a) ∷ log) = c ∷ history log

-- Each call was answered what the calls before it promise.
abbrev pub IsSequential : List (Call × Answer) → Type 0
IsSequential [] = Unit
IsSequential ((c, a) ∷ log) = (a ≡ promised c (history log)) × IsSequential log

-- What is left of a section leaves the flags, and answers, as the call after the history would.
abbrev pub EndsWell : Task → Slot → List (Call × Answer) → Type 0
EndsWell (inside c k) slot log = finish k slot ≡ answer c (after (history log))
EndsWell _ slot log = ⊥

-- Without a lock the flags are those of the history; with it, its owner is in a section that ends
-- well.
abbrev pub IsCurrent : Option ℕ → Slot → (ℕ → Task) → List (Call × Answer) → Type 0
IsCurrent none slot tasks log = slot ≡ after (history log)
IsCurrent (some i) slot tasks log = EndsWell (tasks i) slot log

abbrev pub is_inside : Task → Bool
is_inside (inside c k) = true
is_inside _ = false

-- Only the owner of the lock is in a section.
abbrev pub IsOwner : Option ℕ → (ℕ → Task) → Type 0
IsOwner lock tasks = (i : ℕ) → is_inside (tasks i) ≡ true → lock ≡ some i

-- What a task takes away from its section is on record.
abbrev pub IsAnswered : Task → List (Call × Answer) → Type 0
IsAnswered (leaves c a) log = Memᴰ (c, a) log
IsAnswered _ log = Unit

pub record Inv (s : Cores) : Type 0 where
  pub sequential : IsSequential s.log
  pub current : IsCurrent s.lock s.slot s.tasks s.log
  pub owner : IsOwner s.lock s.tasks
  pub answered : (i : ℕ) → IsAnswered (s.tasks i) s.log

pub update-here : (tasks : ℕ → Task) (i : ℕ) (v : Task) → update tasks i v i ≡ v
update-here tasks i v = ground arith

pub update-IsAnswered :
    (log : List (Call × Answer)) (tasks : ℕ → Task) (i : ℕ) (v : Task)
    → IsAnswered v log
    → ((j : ℕ) → IsAnswered (tasks j) log)
    → (j : ℕ) → IsAnswered (update tasks i v j) log
update-IsAnswered log tasks i v here there j = elim (ℕ_discrete i j) [
  | yes e ↦ let now : update tasks i v j ≡ v = ground arith in rw now here
  | no n ↦ let as_before : update tasks i v j ≡ tasks j = ground arith in rw as_before (there j)
]

pub answered-later :
    (t : Task) (log : List (Call × Answer)) (r : Call × Answer)
    → IsAnswered t log
    → IsAnswered t (r ∷ log)
answered-later outside log r h = tt
answered-later (enters c) log r h = tt
answered-later (inside c k) log r h = tt
answered-later (leaves c a) log r h = Memᴰ.tail h

-- A task that is in no section moves to where it is in none.
apart-IsOwner :
    (lock : Option ℕ) (tasks : ℕ → Task) (i : ℕ) (v : Task)
    → is_inside v ≡ false
    → IsOwner lock tasks
    → IsOwner lock (update tasks i v)
apart-IsOwner lock tasks i v out owner = λ j h. ground (arith, owner j)

apart-IsCurrent :
    (lock : Option ℕ) (slot : Slot) (tasks : ℕ → Task) (log : List (Call × Answer)) (i : ℕ)
    (v : Task)
    → is_inside (tasks i) ≡ false
    → IsCurrent lock slot tasks log
    → IsCurrent lock slot (update tasks i v) log
apart-IsCurrent none slot tasks log i v out current = current
apart-IsCurrent (some k) slot tasks log i v out current = elim (ℕ_discrete i k) [
  | yes e ↦ absurd (nowhere (tasks k) (ap (λ x. is_inside (tasks x)) (sym e) ∙ out) current)
  | no n ↦ let away : update tasks i v k ≡ tasks k = ground arith in rw away current
]
  where
    nowhere : (t : Task) → is_inside t ≡ false → EndsWell t slot log → ⊥
    nowhere outside p q = q
    nowhere (enters c) p q = q
    nowhere (inside c k) p q = absurd (cc)
    nowhere (leaves c a) p q = q

pub apart-Inv :
    (s : Cores) (i : ℕ) (v : Task)
    → is_inside (s.tasks i) ≡ false
    → is_inside v ≡ false
    → IsAnswered v s.log
    → Inv s
    → Inv (record s { tasks = update s.tasks i v })
apart-Inv s i v before behind known inv = record {
  sequential = inv.sequential;
  current = apart-IsCurrent s.lock s.slot s.tasks s.log i v before inv.current;
  owner = apart-IsOwner s.lock s.tasks i v behind inv.owner;
  answered = update-IsAnswered s.log s.tasks i v known inv.answered;
}

-- Once the lock is held, whoever is in a section holds it.
pub sole : {lock : Option ℕ} {i j : ℕ} → lock ≡ some i → lock ≡ some j → i ≡ j
sole p q = cc

-- The owner moves within its section, and out of it.
pub inner-IsOwner :
    (tasks : ℕ → Task) (i : ℕ) (v : Task)
    → ((j : ℕ) → is_inside (tasks j) ≡ true → i ≡ j)
    → IsOwner (some i) (update tasks i v)
inner-IsOwner tasks i v only =
    λ j h. elim (ℕ_discrete i j) [ yes e ↦ ap some e | no n ↦ ap some (only j (ground arith)) ]

pub outer-IsOwner :
    (tasks : ℕ → Task) (i : ℕ) (v : Task)
    → is_inside v ≡ false
    → ((j : ℕ) → is_inside (tasks j) ≡ true → i ≡ j)
    → IsOwner none (update tasks i v)
outer-IsOwner tasks i v out only = λ j h. absurd (ground (arith, only j))
