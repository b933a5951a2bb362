-- ===== src/Slot/Lock/Refinement.antt =====
-- src/ota-api-state.c: the critical sections make each function one step.
use mathlib.Core.List.{Memᴰ}
use esp32s3_ota_api.Prelude.{ℕ, ◌≡◌, refl, ap, ◌∙◌, true, none, some, ◌∷◌}
use esp32s3_ota_api.Slot.Spec.{Call, Answer, answer, after, answer-promised}
use esp32s3_ota_api.Slot.Exclusion.{update}
use esp32s3_ota_api.Slot.Lock.{
  Section, exit, section_of, access, outside, enters, inside, leaves, Cores, Step, calls, locks,
  accesses, unlocks, returns, Reach, start, later,
}
use esp32s3_ota_api.Slot.Lock.Sections.{finish, finish-section_of, finish-access}
use esp32s3_ota_api.Slot.Lock.Invariant.{
  history, IsSequential, EndsWell, IsCurrent, is_inside, IsAnswered, Inv, update-here,
  update-IsAnswered, answered-later, apart-Inv, sole, inner-IsOwner, outer-IsOwner,
}

locks-Inv :
    (s : Cores) (i : ℕ) (c : Call)
    → s.lock ≡ none
    → Inv s
    → Inv (record s { tasks = update s.tasks i (inside c (section_of c)); lock = some i })
locks-Inv s i c free inv =
    let here : s.slot ≡ after (history s.log) = rw free at inv.current in
    record {
      sequential = inv.sequential;
      current =
          rw (update-here s.tasks i (inside c (section_of c)))
            (finish-section_of c s.slot ∙ ap (answer c) here);
      owner = inner-IsOwner s.tasks i _ (λ j h. let held = inv.owner j h in absurd (cc));
      answered = update-IsAnswered s.log s.tasks i (inside c (section_of c)) tt inv.answered;
    }

module _ (s : Cores) (i : ℕ) (c : Call) (k : Section) (here : s.tasks i ≡ inside c k)
    (inv : Inv s) where
  held : s.lock ≡ some i
  held = inv.owner i (rw here refl)

  only : (j : ℕ) → is_inside (s.tasks j) ≡ true → i ≡ j
  only j h = sole held (inv.owner j h)

  ends : finish k s.slot ≡ answer c (after (history s.log))
  ends =
      let own : EndsWell (s.tasks i) s.slot s.log = rw held at inv.current in
      let there : EndsWell (inside c k) s.slot s.log = rw here at own in there

  accesses-Inv : Inv (record s {
    tasks = update s.tasks i (inside c (access k s.slot).0);
    slot = (access k s.slot).1;
  })
  accesses-Inv = record {
    sequential = inv.sequential;
    current =
        rw (held, update-here s.tasks i (inside c (access k s.slot).0))
          (finish-access k s.slot ∙ ends);
    owner = rw held (inner-IsOwner s.tasks i _ only);
    answered = update-IsAnswered s.log s.tasks i (inside c (access k s.slot).0) tt inv.answered;
  }

unlocks-Inv :
    (s : Cores) (i : ℕ) (c : Call) (a : Answer)
    → s.tasks i ≡ inside c (exit a)
    → Inv s
    → Inv (record s { tasks = update s.tasks i (leaves c a); lock = none; log = (c, a) ∷ s.log })
unfolding after finish
unlocks-Inv s i c a here inv =
    let ended : (a, s.slot) ≡ answer c (after (history s.log)) = ends s i c (exit a) here inv in
    record {
      sequential = (ap (λ r. r.0) (ended ∙ answer-promised c (history s.log)), inv.sequential);
      current = ap (λ r. r.1) ended;
      owner = outer-IsOwner s.tasks i _ refl (only s i c (exit a) here inv);
      answered =
          update-IsAnswered ((c, a) ∷ s.log) s.tasks i (leaves c a) (Memᴰ.head refl)
            (λ j. answered-later (s.tasks j) s.log (c, a) (inv.answered j));
    }

Step-Inv : {s t : Cores} → Step s t → Inv s → Inv t
Step-Inv {s} (calls i c out) inv = apart-Inv s i (enters c) (rw out refl) refl tt inv
Step-Inv {s} (locks i c ready free) inv = locks-Inv s i c free inv
Step-Inv {s} (accesses i c k here) inv = accesses-Inv s i c k here inv
Step-Inv {s} (unlocks i c a here) inv = unlocks-Inv s i c a here inv
Step-Inv {s} (returns i c a here) inv = apart-Inv s i outside (rw here refl) refl tt inv

pub Reach-Inv : {s : Cores} → Reach s → Inv s
unfolding after
Reach-Inv start = record { sequential = tt; current = refl; owner = λ j h. cc; answered = λ j. tt }
Reach-Inv (later r st) = Step-Inv st (Reach-Inv r)

-- However the tasks interleave, one access at a time: each call that has left its section was
-- answered what the calls that left theirs before it promise; the answer that a task brings out is
-- on record; at most one task is in a section; and while none has the lock the flags are those that
-- the calls leave one after another.
pub Reach-IsLinear :
    {s : Cores}
    → Reach s
    → IsSequential s.log
      × ((i : ℕ) → IsAnswered (s.tasks i) s.log)
      × ((i j : ℕ) → is_inside (s.tasks i) ≡ true → is_inside (s.tasks j) ≡ true → i ≡ j)
      × (s.lock ≡ none → s.slot ≡ after (history s.log))
Reach-IsLinear {s} r =
    let inv = Reach-Inv r in
    (
      inv.sequential,
      inv.answered,
      λ i j p q. sole (inv.owner i p) (inv.owner j q),
      λ free. let idle : IsCurrent none s.slot s.tasks s.log = rw free at inv.current in idle,
    )
