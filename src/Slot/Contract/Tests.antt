-- ===== src/Slot/Contract/Tests.antt =====
-- An update slot of another make: the request, if an update runs.
use esp32s3_ota_api.Prelude.{
  ◌≡◌, refl, Bool, true, false, Option, none, some, [], ◌∷◌, arith, is_some,
}
use esp32s3_ota_api.Err.{esp_ok, invalid_state}
use esp32s3_ota_api.Slot.{Slot, initial, is_running, abort_requested}
use esp32s3_ota_api.Slot.Spec.{claim, release, requested, request, answer, after}
use esp32s3_ota_api.Slot.Contract.{
  Owners, Callers, IsGuarded, IsStoppable, reply, until, owners, callers, slot-IsGuarded,
  slot-IsStoppable, reply-answer,
}

abbrev packed_owners : Owners (Option Bool)
packed_owners = record {
  claim_update_slot = λ s. elim s [ none ↦ (true, some false) | some b ↦ (false, some b) ];
  release_update_slot = λ s. none;
  abort_requested = λ s. elim s [ none ↦ false | some b ↦ b ];
}

abbrev packed_callers : Callers (Option Bool)
packed_callers = record {
  abort = λ s. elim s [ none ↦ (invalid_state, none) | some b ↦ (esp_ok, some true) ];
  is_running = λ s. is_some s;
}

packed-IsGuarded : IsGuarded (Option Bool) packed_owners packed_callers
packed-IsGuarded = record {
  claim_result = λ s. ground arith;
  claim_runs = λ s. ground arith;
  claim_afresh = λ s. ground arith;
  release_runs = λ s. refl;
  release_clears = λ s. refl;
}

packed-IsStoppable : IsStoppable (Option Bool) packed_owners packed_callers
packed-IsStoppable = record {
  abort_result = λ s. ground arith;
  abort_runs = λ s. ground arith;
  abort_asks = λ s. ground arith;
}

reply-answer_example :
    let h = request ∷ claim ∷ release ∷ request ∷ claim ∷ [] in
    (reply
      (Option Bool)
      packed_owners
      packed_callers
      requested
      (until (Option Bool) packed_owners packed_callers none h)).0
    ≡ (answer requested (after h)).0
reply-answer_example =
    reply-answer (Option Bool) packed_owners packed_callers packed-IsGuarded packed-IsStoppable none
      refl refl requested (request ∷ claim ∷ release ∷ request ∷ claim ∷ [])

-- The source's own.
own_answers :
    let h = claim ∷ request ∷ claim ∷ [] in
    (reply Slot owners callers requested (until Slot owners callers initial h)).0
    ≡ (answer requested (after h)).0
unfolding is_running abort_requested
own_answers =
    reply-answer Slot owners callers slot-IsGuarded slot-IsStoppable initial refl refl requested
      (claim ∷ request ∷ claim ∷ [])
