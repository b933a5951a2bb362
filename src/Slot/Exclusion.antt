-- ===== src/Slot/Exclusion.antt =====
-- src/ota-api-state.c under any number of tasks, interleaved one critical section at a time.
use Prim.Native.Nat.{ℕ}
use mathlib.Core.Logic.{ite}
use native.Mathlib.Decide.{ℕ_discrete}
use esp32s3_ota_api.Prelude.{◌≡◌, refl, sym, ◌∙◌, inl, inr, Bool, true, false, arith, Bool-cases}
use esp32s3_ota_api.Slot.{Slot, initial, claim_update_slot, release_update_slot, abort, is_running}

abbrev pub update {ℓ} : {A : Type ℓ} → (ℕ → A) → ℕ → A → ℕ → A
update f i a j = ite (ℕ_discrete i j) a (f j)

-- Whether each task stands between a claim that succeeded and its release.
pub record Tasks : Type 0 where
  pub slot : Slot
  pub updating : ℕ → Bool

-- A task releases only what it claimed, as `ota_api_update` does; any task may ask the rest.
pub data Step (s : Tasks) : Tasks → Type 0 where
  claims :
      (i : ℕ)
      → s.updating i ≡ false
      → Step s (record {
        slot = (claim_update_slot s.slot).1;
        updating = update s.updating i (claim_update_slot s.slot).0;
      })
  releases :
      (i : ℕ)
      → s.updating i ≡ true
      → Step s (record { slot = release_update_slot s.slot; updating = update s.updating i false })
  requests : Step s (record s { slot = (abort s.slot).1 })

pub data Reach : Tasks → Type 0 where
  start : Reach (record { slot = initial; updating = λ _. false })
  later : {s t : Tasks} → Reach s → Step s t → Reach t

-- The flag is set exactly while some task updates, and then just one does.
abbrev pub Owner : Bool → (ℕ → Bool) → Type 0
Owner true updating = (i : ℕ) × (updating i ≡ true) × ((j : ℕ) → updating j ≡ true → j ≡ i)
Owner false updating = (j : ℕ) → updating j ≡ false

module _ (s : Slot) (u : ℕ → Bool) where
  claims-Owner :
      (i : ℕ)
      → u i ≡ false
      → Owner s.running u
      → Owner (claim_update_slot s).1.running (update u i (claim_update_slot s).0)
  unfolding claim_update_slot
  claims-Owner i out o = elim (Bool-cases s.running) [
    | inl busy ↦
        let (k, holds, only) = let here : Owner true u = rw busy at o in here in
        rw busy (k, ground arith, λ j h. only j (ground arith))
    | inr free ↦
        let none_in : Owner false u = rw free at o in
        rw free (i, ground arith, λ j h. ground (arith, none_in j))
  ]

  releases-Owner : (i : ℕ) → u i ≡ true → Owner s.running u → Owner false (update u i false)
  releases-Owner i h o = elim (Bool-cases s.running) [
    | inl busy ↦
        let (k, holds, only) = let here : Owner true u = rw busy at o in here in
        λ j. ground (arith, only i, only j)
    | inr free ↦ let none_in : Owner false u = rw free at o in absurd (ground (arith, none_in i))
  ]

  requests-Owner : Owner s.running u → Owner (abort s).1.running u
  unfolding abort
  requests-Owner o = elim (Bool-cases s.running) [
    | inl busy ↦ let here : Owner true u = rw busy at o in rw busy here
    | inr free ↦ let none_in : Owner false u = rw free at o in rw free none_in
  ]

Step-Owner :
    {s t : Tasks} → Step s t → Owner s.slot.running s.updating → Owner t.slot.running t.updating
unfolding release_update_slot
Step-Owner {s} (claims i out) o = claims-Owner s.slot s.updating i out o
Step-Owner {s} (releases i h) o = releases-Owner s.slot s.updating i h o
Step-Owner {s} requests o = requests-Owner s.slot s.updating o

Reach-Owner : {s : Tasks} → Reach s → Owner s.slot.running s.updating
Reach-Owner start = λ j. refl
Reach-Owner (later r st) = Step-Owner st (Reach-Owner r)

-- However the tasks interleave, two updates never overlap: two tasks that stand between a
-- successful claim and its release are one and the same, and `ota_api_is_running` answers true.
pub no_overlap :
    {s : Tasks}
    → Reach s
    → (i j : ℕ) → s.updating i ≡ true
    → s.updating j ≡ true
    → (i ≡ j) × (is_running s.slot ≡ true)
unfolding is_running
no_overlap {s} r i j p q = elim (Bool-cases s.slot.running) [
  | inl busy ↦
      let (k, holds, only) =
        let here : Owner true s.updating = rw busy at (Reach-Owner r) in here in
      (only i p ∙ sym (only j q), busy)
  | inr free ↦
      let none_in : Owner false s.updating = rw free at (Reach-Owner r) in
      absurd (ground (arith, none_in i))
]

-- What the result of a claim says of the tasks.
abbrev pub Verdict : Bool → (ℕ → Bool) → Type 0
Verdict true updating = (j : ℕ) → updating j ≡ false
Verdict false updating = (j : ℕ) × (updating j ≡ true)

-- However the tasks interleave, a claim succeeds exactly while no task updates: if it is refused
-- there is a task that does, and if it succeeds there was none.
pub claim-Verdict : {s : Tasks} → Reach s → Verdict (claim_update_slot s.slot).0 s.updating
unfolding claim_update_slot
claim-Verdict {s} r = elim (Bool-cases s.slot.running) [
  | inl busy ↦
      let (k, holds, only) =
        let here : Owner true s.updating = rw busy at (Reach-Owner r) in here in
      rw busy (k, holds)
  | inr free ↦ let none_in : Owner false s.updating = rw free at (Reach-Owner r) in rw free none_in
]
