-- ===== src/Slot/Tests.antt =====
-- src/ota-api-state.c on short histories.
use native.Mathlib.Decide.{ℕ_discrete}
use esp32s3_ota_api.Prelude.{ℕ, ◌≡◌, refl, true, false, [], ◌∷◌}
use esp32s3_ota_api.Slot.{initial, claim_update_slot, is_running}
use esp32s3_ota_api.Slot.Spec.{
  claim, release, requested, request, flag, answer, after, answer-promised,
}
use esp32s3_ota_api.Slot.Exclusion.{
  Tasks, Reach, start, later, claims, update, Verdict, no_overlap, claim-Verdict,
}

-- A request is lost on the next owner.
answer-promised_run :
    answer requested (after (claim ∷ release ∷ request ∷ claim ∷ []))
    ≡ (flag false, record { running = true; abort_requested = false })
answer-promised_run = answer-promised requested (claim ∷ release ∷ request ∷ claim ∷ [])

abbrev task : ℕ
task = 3

-- That task updates.
abbrev third : Tasks
third = record {
  slot = (claim_update_slot initial).1;
  updating = update (λ _. false) task (claim_update_slot initial).0;
}

reach_third : Reach third
reach_third = later start (claims task refl)

no_overlap_example : (task ≡ task) × (is_running third.slot ≡ true)
unfolding claim_update_slot ℕ_discrete
no_overlap_example = no_overlap reach_third task task refl refl

claim-Verdict_run : Verdict (claim_update_slot third.slot).0 third.updating
claim-Verdict_run = claim-Verdict reach_third
