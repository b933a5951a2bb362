-- ===== src/Trial/Laws.antt =====
-- src/ota-api-trial.c: what a countdown, a verdict and their absence lead to.
use esp32s3_ota_api.Prelude.{
  ℕ, ◌*◌, ◌%◌, ◌^◌, ◌<◌, ◌≡◌, refl, ◌∙◌, not, ◌&&◌, true, false, Option, none, some, inl, inr,
  arith, ◌==◌, if◌then◌else◌, is_some, Bool-cases,
}
use esp32s3_ota_api.Err.{esp_ok, invalid_state, is_ok}
use esp32s3_ota_api.Config.{Kconfig}
use esp32s3_ota_api.Trial.{
  Board, State, is_on_trial, trial_timeout, start, with_timer, trial_begin, stop, trial_confirm,
}

-- What esp_timer and esp_ota_ops document. `window` is the microseconds that a running one-shot
-- timer was started with.
pub record IsDocumented (B : Board) (window : B.Timer → B.World → Option ℕ) : Type 0 where
  -- "ESP_ERR_INVALID_STATE if the timer is already running", and then it goes on running.
  pub start_once :
      (t : B.Timer) (d : ℕ) (w : B.World)
      → let (err, w') = B.timer_start_once t d w in
        if is_some (window t w)
        then (err ≡ invalid_state) × (window t w' ≡ window t w)
        else (err ≡ esp_ok → window t w' ≡ some d)
  -- Stopping ends in a timer that is not running, whether it ran before or not.
  pub stops : (t : B.Timer) (w : B.World) → window t (B.timer_stop t w).1 ≡ none
  -- A created timer is not running.
  pub create_idle : (w : B.World) → window (B.timer_create w).0.1 (B.timer_create w).1 ≡ none
  -- Timers and the partition table are apart.
  pub create_on_trial : (w : B.World) → is_on_trial B (B.timer_create w).1 ≡ is_on_trial B w
  pub start_on_trial :
      (t : B.Timer) (d : ℕ) (w : B.World)
      → is_on_trial B (B.timer_start_once t d w).1 ≡ is_on_trial B w
  pub stop_on_trial :
      (t : B.Timer) (w : B.World) → is_on_trial B (B.timer_stop t w).1 ≡ is_on_trial B w
  pub mark_valid_timers :
      (t : B.Timer) (w : B.World) → window t (B.ota_mark_app_valid_cancel_rollback w).1 ≡ window t w
  -- An image marked valid is on trial no more; if that fails, the table is as it was.
  pub mark_valid :
      (w : B.World)
      → let (err, w') = B.ota_mark_app_valid_cancel_rollback w in
        is_on_trial B w' ≡ (if is_ok err then false else is_on_trial B w)

module _ (B : Board) (K : Kconfig) (window : B.Timer → B.World → Option ℕ)
    (doc : IsDocumented B window) where
  -- The window of the component's timer, if it has one that runs.
  abbrev pub countdown : State B → Option ℕ
  countdown s = elim s.timer [ none ↦ none | some t ↦ window t s.world ]

  abbrev pub seconds : ℕ → ℕ
  seconds timeout_s = if timeout_s == 0 then K.trial_timeout_s else timeout_s

  module _ (t : B.Timer) (n : ℕ) (w : B.World) where
    start-countdown :
        n < 2 ^ 32
        → (start B t n w).0 ≡ esp_ok
        → (window t w ≡ none) × (countdown (start B t n w).1 ≡ some (n * 1000000))
    unfolding start
    start-countdown small ok = ground (arith, doc.start_once t ((n * 1000000) % 2 ^ 64) w)

    start-busy :
        is_some (window t w) ≡ true
        → ((start B t n w).0 ≡ invalid_state) × (countdown (start B t n w).1 ≡ window t w)
    unfolding start
    start-busy busy = ground (arith, doc.start_once t ((n * 1000000) % 2 ^ 64) w)

    pub start-on_trial : is_on_trial B (start B t n w).1.world ≡ is_on_trial B w
    unfolding start
    start-on_trial = doc.start_on_trial t ((n * 1000000) % 2 ^ 64) w

  -- What a countdown that was started looks like.
  record Started (n : ℕ) (before after : State B) : Type 0 where
    idle_before : countdown before ≡ none
    runs : countdown after ≡ some (n * 1000000)
    undecided : is_on_trial B after.world ≡ is_on_trial B before.world

  with_timer-Started :
      (n : ℕ) (timer : Option B.Timer) (w : B.World)
      → n < 2 ^ 32
      → (with_timer B timer n w).0 ≡ esp_ok
      → Started n (record { timer = timer; world = w }) (with_timer B timer n w).1
  unfolding with_timer
  with_timer-Started n (some t) w small ok =
      let (idle, runs) = start-countdown t n w small ok in
      record { idle_before = idle; runs = runs; undecided = start-on_trial t n w }
  with_timer-Started n none w small ok =
      let x = B.timer_create w in
      elim (Bool-cases (is_ok x.0.0)) [
        | inl created ↦
            let (idle, runs) = start-countdown x.0.1 n x.1 small (ground arith) in
            rw (created, with_timer)
              (record {
                idle_before = refl;
                runs = runs;
                undecided = start-on_trial x.0.1 n x.1 ∙ doc.create_on_trial w;
              })
        | inr failed ↦ absurd (ground arith)
      ]

  -- A countdown that starts does so on trial only, and where none runs. From then on it runs for
  -- the seconds asked for, or those of the configuration if none are, in microseconds that do not
  -- wrap around, and the image is still on trial. The board is taken to do what is documented, and
  -- the seconds to fit 32 bits.
  pub begin-countdown :
      (timeout_s : ℕ) (s : State B)
      → seconds timeout_s < 2 ^ 32
      → (trial_begin B K timeout_s s).0 ≡ esp_ok
      → let s' = (trial_begin B K timeout_s s).1 in
        (is_on_trial B s.world ≡ true)
        × (countdown s ≡ none)
        × (countdown s' ≡ some (seconds timeout_s * 1000000))
        × (is_on_trial B s'.world ≡ true)
  unfolding trial_begin
  begin-countdown timeout_s s small ok = elim (Bool-cases (is_on_trial B s.world)) [
    | inl trial ↦
        let started =
          with_timer-Started (seconds timeout_s) s.timer s.world small
            (rw (trial, trial_begin) at ok) in
        rw (trial, trial_begin) (refl, started.idle_before, started.runs, started.undecided ∙ trial)
    | inr settled ↦ absurd (ground arith)
  ]

  with_timer-busy :
      (n : ℕ) (timer : Option B.Timer) (w : B.World)
      → is_some (countdown (record { timer = timer; world = w })) ≡ true
      → ((with_timer B timer n w).0 ≡ invalid_state)
        × (countdown (with_timer B timer n w).1 ≡ countdown (record { timer = timer; world = w }))
  unfolding with_timer
  with_timer-busy n (some t) w busy = start-busy t n w busy
  with_timer-busy n none w busy = cc

  -- Off trial, or while a countdown runs, no other is started: the answer is
  -- ESP_ERR_INVALID_STATE, and a countdown that runs goes on as it was. The board is taken to do
  -- what is documented.
  pub begin-refused :
      (timeout_s : ℕ) (s : State B)
      → (is_on_trial B s.world && not (is_some (countdown s))) ≡ false
      → ((trial_begin B K timeout_s s).0 ≡ invalid_state)
        × (countdown (trial_begin B K timeout_s s).1 ≡ countdown s)
  unfolding trial_begin
  begin-refused timeout_s s no_use = elim (Bool-cases (is_on_trial B s.world)) [
    | inl trial ↦
        rw (trial, trial_begin) (with_timer-busy (seconds timeout_s) s.timer s.world (ground arith))
    | inr settled ↦ rw (settled, trial_begin) (refl, refl)
  ]

  pub stop-countdown :
      (timer : Option B.Timer) (w : B.World)
      → countdown (record { timer = timer; world = stop B timer w }) ≡ none
  unfolding stop
  stop-countdown none w = refl
  stop-countdown (some t) w = doc.stops t w

  pub stop-on_trial :
      (timer : Option B.Timer) (w : B.World) → is_on_trial B (stop B timer w) ≡ is_on_trial B w
  unfolding stop
  stop-on_trial none w = refl
  stop-on_trial (some t) w = doc.stop_on_trial t w

  pub mark_valid-countdown :
      (timer : Option B.Timer) (w : B.World)
      → countdown (record { timer = timer; world = (B.ota_mark_app_valid_cancel_rollback w).1 })
        ≡ countdown (record { timer = timer; world = w })
  mark_valid-countdown none w = refl
  mark_valid-countdown (some t) w = doc.mark_valid_timers t w

  -- A confirmation that gets through to the partition table, on an image that is on trial, leaves
  -- no countdown running whatever the table answers. If it answers ESP_OK, the image is on trial no
  -- more, and the timer's callback, should it run all the same, does nothing; if not, the image is
  -- still on trial, and the callback, which no countdown runs any more, would still roll it back.
  -- The board is taken to do what is documented.
  pub confirm-countdown :
      (s : State B)
      → is_on_trial B s.world ≡ true
      → let (err, s') = trial_confirm B s in
        (countdown s' ≡ none)
        × (is_on_trial B s'.world ≡ not (is_ok err))
        × (is_some (trial_timeout B s'.world) ≡ not (is_ok err))
  unfolding trial_confirm trial_timeout
  confirm-countdown s trial =
      let w = stop B s.timer s.world in
      let marked = doc.mark_valid w in
      let stopped = stop-on_trial s.timer s.world in
      let quiet = mark_valid-countdown s.timer w ∙ stop-countdown s.timer s.world in
      rw (trial, trial_confirm) (quiet, ground arith, ground arith)
