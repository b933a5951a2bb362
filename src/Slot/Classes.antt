-- ===== src/Slot/Classes.antt =====
-- src/ota-api-state.c seen from outside: histories of calls up to what they promise for the future.
use std.Equiv.{Iso}
use mathlib.Core.Quot
use mathlib.Core.Quot.{Quot, Quot-set}
use esp32s3_ota_api.Prelude.{◌≡◌, refl, ap, Bool, true, false, List, [], ◌∷◌, if◌then◌else◌}
use esp32s3_ota_api.Slot.{
  Slot, claim_update_slot, release_update_slot, abort_requested, abort, is_running,
}
use esp32s3_ota_api.Slot.Spec.{
  Call, claim, requested, request, running, Answer, flag, answer, after, owned, pending,
  owned_of_pending, after-view,
}

-- What calls in a row are answered.
pub answers : List Call → Slot → List Answer
answers [] s = []
answers (c ∷ calls) s = let (a, s') = answer c s in a ∷ answers calls s'

-- No calls tell the two histories apart.
abbrev pub Alike : List Call → List Call → Type 0
Alike h k = (calls : List Call) → answers calls (after h) ≡ answers calls (after k)

abbrev pub Class : Type 0
Class = Quot Alike

-- Nobody updates, somebody does, or somebody does and was asked to stop.
pub data Status : Type 0 where
  idle updating stopping : Status

abbrev pub status : Bool → Bool → Status
status is_owned is_pending = if is_owned then (if is_pending then stopping else updating) else idle

abbrev pub status_of : Slot → Status
status_of s = status s.running s.abort_requested

-- A history that leads to a status.
abbrev pub sample : Status → List Call
sample idle = []
sample updating = claim ∷ []
sample stopping = request ∷ claim ∷ []

flag-injective : {a b : Bool} → flag a ∷ [] ≡ flag b ∷ [] → a ≡ b
flag-injective e = cc

status_of-Alike : (h k : List Call) → Alike h k → status_of (after h) ≡ status_of (after k)
unfolding answers answer
status_of-Alike h k alike =
    let runs : (after h).running ≡ (after k).running = flag-injective (alike (running ∷ [])) in
    let asked : (after h).abort_requested ≡ (after k).abort_requested =
      flag-injective (alike (requested ∷ [])) in
    rw (runs, asked) refl

Status-set : IsSet Status
Status-set = hlevel

pub class_status : Class → Status
class_status = Quot.lift Status-set (λ h. status_of (after h)) status_of-Alike

pub status_class : Status → Class
status_class s = Quot.mk (sample s)

-- The flags of a history are those of the sample of its status, since a request is pending only
-- under an owner.
after-sample : (h : List Call) → after (sample (status_of (after h))) ≡ after h
unfolding after answer claim_update_slot abort
after-sample h = rw (after-view h) (flags (owned h) (pending h) (owned_of_pending h))
  where
    flags :
        (is_owned is_pending : Bool)
        → (is_pending ≡ true → is_owned ≡ true)
        → after (sample (status is_owned is_pending))
          ≡ record { running = is_owned; abort_requested = is_pending }
    flags false false h = refl
    flags false true h = let never = h refl in absurd (cc)
    flags true false h = refl
    flags true true h = refl

-- What the functions of the slot do to a status.
pub answer_status : Call → Status → Answer × Status
unfolding answer claim_update_slot release_update_slot abort_requested abort is_running
answer_status c s = let (a, slot) = answer c (after (sample s)) in (a, status_of slot)

status_of-sample : (s : Status) → status_of (after (sample s)) ≡ s
unfolding after answer claim_update_slot abort
status_of-sample idle = refl
status_of-sample updating = refl
status_of-sample stopping = refl

answer_status-after :
    (c : Call) (h : List Call)
    → answer_status c (status_of (after h))
      ≡ ((answer c (after h)).0, status_of (answer c (after h)).1)
unfolding answer_status
answer_status-after c h = rw (after-sample h) refl

-- Up to what later calls can tell, there are three histories of calls of the slot: nobody owns it,
-- somebody does, or somebody does and a request to stop is pending. The classes of histories that
-- no later calls tell apart are in one-to-one correspondence with these three, the class of a
-- history is carried to what the history promises, and what a call answers and leaves behind
-- depends on that alone.
pub classes :
    (e : Iso Class Status) × ((h : List Call) → e.fun (Quot.mk h) ≡ status (owned h) (pending h))
    × ((c : Call) (h : List Call)
        → answer_status c (e.fun (Quot.mk h)) ≡ ((answer c (after h)).0, e.fun (Quot.mk (c ∷ h))))
unfolding class_status status_class after
classes = (
  record {
    fun = class_status;
    inv = status_class;
    rinv = status_of-sample;
    linv =
        Quot.ind (λ q. Quot-set _ _)
          (λ h. Quot.sound (λ calls. ap (answers calls) (after-sample h)));
  },
  λ h. ap status_of (after-view h),
  answer_status-after,
)
