-- ===== src/Trial/Race/Laws.antt =====
-- src/ota-api-trial.c: from when on a confirmation can no longer lose against the callback.
use esp32s3_ota_api.Prelude.{
  ℕ, ◌≡◌, inl, inr, Bool, true, false, not, Option, none, some, List, [], ◌∷◌, arith, Bool-cases,
}
use esp32s3_ota_api.Config.{Kconfig}
use esp32s3_ota_api.Trial.{Board, is_on_trial}
use esp32s3_ota_api.Trial.Laws.{IsDocumented}
use esp32s3_ota_api.Trial.Race.{
  Confirm, idle, checked, stopped, marked, off_trial, Callback, waiting, dispatched, saw_trial,
  returned, rolled_back, Service, Move, confirms, times_out, passes, Race, begun, confirm_step,
  fire, callback_step, is_gone, step, race,
}
use esp32s3_ota_api.Trial.Race.Invariant.{
  IsTimely, has_checked, has_stopped, has_confirmed, Inv, Quiet, Holds, gone_step, step-Holds,
  race-Holds, begun-Holds,
}

-- The timer was stopped before its callback was dispatched, or the image was marked before the
-- callback found it on trial.
abbrev pub is_settled : Confirm → Callback → Bool
is_settled confirm waiting = has_stopped confirm
is_settled confirm saw_trial = false
is_settled confirm rolled_back = false
is_settled confirm _ = has_confirmed confirm

module _ (B : Board) (K : Kconfig) (window : B.Timer → B.World → Option ℕ)
    (doc : IsDocumented B window) (S : Service B) (timely : IsTimely B S window) where
  open B use {World, Timer}

  abbrev Settled : Race B S → Type 0
  Settled s = is_settled s.confirm s.callback ≡ true

  confirm_step-Settled :
      (timer : Option Timer) (w : World) (confirm : Confirm) (callback : Callback)
      → is_settled confirm callback ≡ true
      → Settled (
          confirm_step B S confirm
            (record { timer = timer; world = w; confirm = confirm; callback = callback }))
  unfolding confirm_step
  confirm_step-Settled timer w idle callback h = absurd (ground arith)
  confirm_step-Settled timer w checked callback h = absurd (ground arith)
  confirm_step-Settled timer w stopped callback h = ground arith
  confirm_step-Settled timer w (marked err) callback h = h
  confirm_step-Settled timer w off_trial callback h = h

  fire-Settled :
      (timer : Option Timer) (w : World) (confirm : Confirm)
      → has_stopped confirm ≡ true
      → Quiet B K window doc S timely timer w
      → Settled (
          fire B S timer
            (record { timer = timer; world = w; confirm = confirm; callback = waiting }))
  unfolding fire
  fire-Settled none w confirm h quiet = h
  fire-Settled (some t) w confirm h quiet =
      let idle : S.expired t w ≡ false = ground (arith, timely.expired_runs t w) in rw idle h

  callback_step-Settled :
      (timer : Option Timer) (w : World) (confirm : Confirm) (callback : Callback)
      → Inv B K window doc S timely timer w confirm callback
      → is_settled confirm callback ≡ true
      → Settled (
          callback_step B S callback
            (record { timer = timer; world = w; confirm = confirm; callback = callback }))
  unfolding callback_step
  callback_step-Settled timer w confirm waiting inv h =
      fire-Settled timer w confirm h (inv.quiet (ground arith))
  callback_step-Settled timer w confirm dispatched inv h =
      let off : is_on_trial B w ≡ false = ground (arith, inv.trial) in rw off h
  callback_step-Settled timer w confirm saw_trial inv h = absurd (cc)
  callback_step-Settled timer w confirm returned inv h = h
  callback_step-Settled timer w confirm rolled_back inv h = absurd (cc)

  live_step-Settled :
      (move : Move) (s : Race B S)
      → is_gone s.callback ≡ false
      → Holds B K window doc S timely s
      → Settled s
      → Settled (step B S move s)
  unfolding step
  live_step-Settled confirms s live inv h =
      rw (live, step) (confirm_step-Settled s.timer s.world s.confirm s.callback h)
  live_step-Settled times_out s live inv h =
      rw (live, step) (callback_step-Settled s.timer s.world s.confirm s.callback inv h)
  live_step-Settled (passes d) s live inv h = rw (live, step) h

  step-Settled :
      (move : Move) (s : Race B S)
      → Holds B K window doc S timely s
      → Settled s
      → Settled (step B S move s)
  step-Settled move s inv h = elim (Bool-cases (is_gone s.callback)) [
    | inl gone ↦ rw (gone_step B K window doc S timely move s gone) h
    | inr live ↦ live_step-Settled move s live inv h
  ]

  later-Settled :
      (moves : List Move) (s : Race B S)
      → Holds B K window doc S timely s
      → Settled s
      → Settled (race B S moves s)
  unfolding race
  later-Settled [] s inv h = h
  later-Settled (move ∷ moves) s inv h =
      later-Settled moves (step B S move s) (step-Holds B K window doc S timely move s inv)
        (step-Settled move s inv h)

  settled_live :
      (confirm : Confirm) (callback : Callback)
      → is_settled confirm callback ≡ true
      → (is_gone callback ≡ false) × (has_checked confirm ≡ true)
  settled_live confirm callback h = ground arith

  -- However `ota_api_trial_confirm` and the timer's callback interleave, at each of their calls, and
  -- whatever time passes: once the timer has been stopped with the callback not yet dispatched, or
  -- the image has been marked valid with the callback not having found it on trial, the callback
  -- does not roll the image back any more, in whatever order they go on; and the image is on trial
  -- exactly until the partition table is written. It is taken that the board and its timer do what
  -- is documented, and that no other task begins a trial meanwhile.
  pub race-Settled :
      (timer : Option Timer) (w : World) (before later : List Move)
      → Settled (race B S before (begun B S timer w))
      → let t = race B S later (race B S before (begun B S timer w)) in
        Settled t
        × (is_gone t.callback ≡ false)
        × (is_on_trial B t.world ≡ not (has_confirmed t.confirm))
  race-Settled timer w before later h =
      let s = race B S before (begun B S timer w) in
      let t = race B S later s in
      let inv =
        race-Holds B K window doc S timely before _ (begun-Holds B K window doc S timely timer w) in
      let inv' = race-Holds B K window doc S timely later s inv in
      let stays = later-Settled later s inv h in
      let (live, seen) = settled_live t.confirm t.callback stays in
      (stays, live, inv'.trial (ground arith))
