-- ===== src/Slot/Lock/Tests.antt =====
-- src/ota-api-state.c: two tasks claim the slot at the same time.
use native.Mathlib.Decide.{ℕ_discrete}
use esp32s3_ota_api.Prelude.{ℕ, ◌≡◌, refl, true, false, none, [], ◌∷◌}
use esp32s3_ota_api.Slot.Spec.{claim, flag, after}
use esp32s3_ota_api.Slot.Lock.{
  section_of, Cores, Reach, start, later, calls, locks, accesses, unlocks, returns,
}
use esp32s3_ota_api.Slot.Lock.Invariant.{history, IsSequential, is_inside, IsAnswered}
use esp32s3_ota_api.Slot.Lock.Refinement.{Reach-IsLinear}

-- The second task calls while the first has the lock, and enters once the first has left.
crossing : (s : Cores) × Reach s
unfolding section_of ℕ_discrete
crossing =
    let r = later start (calls 1 claim refl) in
    let r = later r (locks 1 claim refl refl) in
    let r = later r (accesses 1 claim _ refl) in
    let r = later r (calls 2 claim refl) in
    let r = later r (accesses 1 claim _ refl) in
    let r = later r (accesses 1 claim _ refl) in
    let r = later r (unlocks 1 claim (flag true) refl) in
    let r = later r (locks 2 claim refl refl) in
    let r = later r (accesses 2 claim _ refl) in
    let r = later r (returns 1 claim (flag true) refl) in
    (_, later r (unlocks 2 claim (flag false) refl))

crossing_log : crossing.0.log ≡ (claim, flag false) ∷ (claim, flag true) ∷ []
unfolding crossing
crossing_log = refl

Reach-IsLinear_example :
    let s = crossing.0 in
    IsSequential s.log
    × ((i : ℕ) → IsAnswered (s.tasks i) s.log)
    × ((i j : ℕ) → is_inside (s.tasks i) ≡ true → is_inside (s.tasks j) ≡ true → i ≡ j)
    × (s.lock ≡ none → s.slot ≡ after (history s.log))
unfolding crossing
Reach-IsLinear_example = Reach-IsLinear crossing.1
