-- ===== src/Trial/Deadline.antt =====
-- src/ota-api-trial.c: a countdown against the calls that an application makes while it runs.
use esp32s3_ota_api.Prelude.{
  ℕ, ◌+◌, ◌*◌, ◌^◌, ◌<◌, ◌≡◌, refl, ◌∙◌, inl, inr, true, false, not, ◌&&◌, Option, none, some, List,
  [], ◌∷◌, is_some, arith, Bool-cases,
}
use esp32s3_ota_api.Err.{Err, esp_ok, is_ok}
use esp32s3_ota_api.Config.{Kconfig}
use esp32s3_ota_api.Trial.{
  Board, State, Rollback, rebooted, refused, is_on_trial, trial_timeout, with_timer, trial_begin,
  trial_reject,
}
use esp32s3_ota_api.Trial.Laws.{
  IsDocumented, countdown, seconds, start-on_trial, begin-countdown, begin-refused,
}

-- What is documented of the passing of time, while no timer runs out, and of a rollback that is
-- refused.
pub record IsClock (B : Board) (window : B.Timer → B.World → Option ℕ)
    (elapse : ℕ → B.World → B.World) : Type 0 where
  pub elapse_window :
      (t : B.Timer) (d k : ℕ) (w : B.World)
      → window t w ≡ some (d + k)
      → window t (elapse d w) ≡ some k
  pub elapse_on_trial : (d : ℕ) (w : B.World) → is_on_trial B (elapse d w) ≡ is_on_trial B w
  pub refused_window :
      (t : B.Timer) (w w' : B.World) (err : Err)
      → B.ota_mark_app_invalid_rollback_and_reboot w ≡ refused err w'
      → window t w' ≡ window t w
  pub refused_on_trial :
      (w w' : B.World) (err : Err)
      → B.ota_mark_app_invalid_rollback_and_reboot w ≡ refused err w'
      → is_on_trial B w' ≡ is_on_trial B w

-- What happens to an image on trial short of its confirmation: time passes, in microseconds, or the
-- application calls `ota_api_trial_begin` or `ota_api_trial_reject`.
pub data Deed : Type 0 where
  passes begins : ℕ → Deed
  rejects : Deed

abbrev pub elapsed : List Deed → ℕ
elapsed [] = 0
elapsed (passes d ∷ deeds) = d + elapsed deeds
elapsed (_ ∷ deeds) = elapsed deeds

module _ (B : Board) (K : Kconfig) (window : B.Timer → B.World → Option ℕ)
    (doc : IsDocumented B window) (elapse : ℕ → B.World → B.World)
    (clock : IsClock B window elapse) where
  -- `none` if the device has gone back to the firmware before.
  abbrev pub survive : Option B.Timer → Rollback B.World → Option (State B)
  survive timer (rebooted w) = none
  survive timer (refused err w) = some (record { timer = timer; world = w })

  pub perform : Deed → State B → Option (State B)
  perform (passes d) s = some (record s { world = elapse d s.world })
  perform (begins timeout_s) s = some (trial_begin B K timeout_s s).1
  perform rejects s = survive s.timer (trial_reject B s)

  pub run : List Deed → State B → Option (State B)
  run [] s = some s
  run (deed ∷ deeds) s = elim (perform deed s) [ none ↦ none | some s' ↦ run deeds s' ]

  with_timer-on_trial :
      (n : ℕ) (timer : Option B.Timer) (w : B.World)
      → is_on_trial B (with_timer B timer n w).1.world ≡ is_on_trial B w
  unfolding with_timer
  with_timer-on_trial n (some t) w = start-on_trial B K window doc t n w
  with_timer-on_trial n none w =
      let x = B.timer_create w in
      elim (Bool-cases (is_ok x.0.0)) [
        | inl created ↦
            rw (created, with_timer)
              (start-on_trial B K window doc x.0.1 n x.1 ∙ doc.create_on_trial w)
        | inr failed ↦ rw (failed, with_timer) (doc.create_on_trial w)
      ]

  begin-on_trial :
      (timeout_s : ℕ) (s : State B)
      → is_on_trial B (trial_begin B K timeout_s s).1.world ≡ is_on_trial B s.world
  unfolding trial_begin
  begin-on_trial timeout_s s = elim (Bool-cases (is_on_trial B s.world)) [
    | inl trial ↦ rw (trial, trial_begin) (with_timer-on_trial _ s.timer s.world ∙ trial)
    | inr settled ↦ rw (settled, trial_begin) settled
  ]

  -- On trial, with `n` microseconds to go.
  record Counts (n : ℕ) (s : State B) : Type 0 where
    on_trial : is_on_trial B s.world ≡ true
    left : countdown B K window doc s ≡ some n

  -- A deed either sends the device back, or leaves a countdown with `n` microseconds to go.
  abbrev Leaves : ℕ → Option (State B) → Type 0
  Leaves n none = Unit
  Leaves n (some s) = Counts n s

  passes-Counts :
      (d n : ℕ) (timer : Option B.Timer) (w : B.World)
      → Counts (d + n) (record { timer = timer; world = w })
      → Counts n (record { timer = timer; world = elapse d w })
  passes-Counts d n none w c = let never = c.left in absurd (cc)
  passes-Counts d n (some t) w c = record {
    on_trial = clock.elapse_on_trial d w ∙ c.on_trial;
    left = clock.elapse_window t d n w c.left;
  }

  begins-Counts :
      (timeout_s n : ℕ) (s : State B) → Counts n s → Counts n (trial_begin B K timeout_s s).1
  begins-Counts timeout_s n s c =
      let left = c.left in
      let busy : (is_on_trial B s.world && not (is_some (countdown B K window doc s))) ≡ false =
        ground (arith, left) in
      let (code, same) = begin-refused B K window doc timeout_s s busy in
      record { on_trial = begin-on_trial timeout_s s ∙ c.on_trial; left = same ∙ left }

  rejects-Counts :
      (n : ℕ) (timer : Option B.Timer) (w : B.World) (answer : Rollback B.World)
      → B.ota_mark_app_invalid_rollback_and_reboot w ≡ answer
      → Counts n (record { timer = timer; world = w })
      → Leaves n (survive timer answer)
  rejects-Counts n timer w (rebooted w') e c = tt
  rejects-Counts n none w (refused err w') e c = let never = c.left in absurd (cc)
  rejects-Counts n (some t) w (refused err w') e c = record {
    on_trial = clock.refused_on_trial w w' err e ∙ c.on_trial;
    left = clock.refused_window t w w' err e ∙ c.left;
  }

  Leaves-onwards :
      (m n : ℕ) (o : Option (State B)) (f : State B → Option (State B))
      → Leaves m o
      → ((s : State B) → Counts m s → Leaves n (f s))
      → Leaves n (elim o [ none ↦ none | some s' ↦ f s' ])
  Leaves-onwards m n none f h more = tt
  Leaves-onwards m n (some s') f h more = more s' h

  run-Counts :
      (deeds : List Deed) (n : ℕ) (s : State B)
      → Counts (elapsed deeds + n) s
      → Leaves n (run deeds s)
  unfolding run perform trial_reject
  run-Counts [] n s c = let e : 0 + n ≡ n = omega arith in rw e at c
  run-Counts (passes d ∷ deeds) n s c = run-Counts deeds n _ (
      passes-Counts d (elapsed deeds + n) s.timer s.world
        (let e : d + elapsed deeds + n ≡ d + (elapsed deeds + n) = omega arith in rw e at c))
  run-Counts (begins timeout_s ∷ deeds) n s c =
      run-Counts deeds n _ (begins-Counts timeout_s (elapsed deeds + n) s c)
  run-Counts (rejects ∷ deeds) n s c =
      Leaves-onwards (elapsed deeds + n) n
        (survive s.timer (B.ota_mark_app_invalid_rollback_and_reboot s.world)) (run deeds)
        (rejects-Counts (elapsed deeds + n) s.timer s.world _ refl c)
        (λ s' h. run-Counts deeds n s' h)

  -- What is left of a countdown of which `n` microseconds are to go: the device has gone back, or
  -- the countdown is that far, and its callback rolls the image back.
  abbrev pub IsDue : ℕ → Option (State B) → Type 0
  IsDue n none = Unit
  IsDue n (some s) =
      (countdown B K window doc s ≡ some n)
      × (trial_timeout B s.world ≡ some (B.ota_mark_app_invalid_rollback_and_reboot s.world))

  Leaves-IsDue : (n : ℕ) (o : Option (State B)) → Leaves n o → IsDue n o
  unfolding trial_timeout
  Leaves-IsDue n none c = tt
  Leaves-IsDue n (some s) c = (c.left, let trial = c.on_trial in rw trial refl)

  -- An image that nobody confirms does not outlive its countdown. Once `ota_api_trial_begin` has
  -- answered ESP_OK, whatever time passes and whatever calls of `ota_api_trial_begin` and
  -- `ota_api_trial_reject` the application makes, in any order, the device has gone back to the
  -- firmware before, or the image is still on trial and the countdown has exactly the seconds asked
  -- for, or configured, less the time that has passed: no call puts it off, and at 0 the callback
  -- asks for the rollback. The board and the clock are taken to do what is documented, and the
  -- seconds to fit 32 bits.
  pub run-IsDue :
      (timeout_s : ℕ) (s : State B) (deeds : List Deed) (n : ℕ)
      → seconds B K window doc timeout_s < 2 ^ 32
      → (trial_begin B K timeout_s s).0 ≡ esp_ok
      → elapsed deeds + n ≡ seconds B K window doc timeout_s * 1000000
      → IsDue n (run deeds (trial_begin B K timeout_s s).1)
  run-IsDue timeout_s s deeds n small ok total =
      let (before, idle, left, trial) = begin-countdown B K window doc timeout_s s small ok in
      Leaves-IsDue n _ (
        run-Counts deeds n (trial_begin B K timeout_s s).1
          (record { on_trial = trial; left = rw total left }))
