-- ===== src/Console/Lifetime/Safety.antt =====
-- examples/advanced/main/main.c: the pending flag, the update task and the URL buffer.
use esp32s3_ota_api.Prelude.{
  ◌≡◌, refl, ap, ◌∙◌, inl, inr, true, false, ◌||◌, ◌&&◌, none, List, [], ◌∷◌, leb, length, arith,
  if◌then◌else◌, Bool-cases,
}
use esp32s3_ota_api.Prelude.CString.{CString}
use esp32s3_ota_api.Err.{Err, is_ok}
use esp32s3_ota_api.Slot.{Slot, claim_update_slot, release_update_slot, is_running, abort}
use esp32s3_ota_api.Config.{Kconfig}
use esp32s3_ota_api.System.{Platform}
use esp32s3_ota_api.System.Sharing.{Shared}
use esp32s3_ota_api.Task.{Rtos, State}
use esp32s3_ota_api.Task.Apart.{start_task-Same}
use esp32s3_ota_api.Update.Refinement.{outcome}
use esp32s3_ota_api.Console.{
  Statics, Options, App, Action, writes_url, writes_force, raises_pending, starts_task, launching,
  act, lower, asked, parse, ota_url_size, ota_config, on_ota_event_cb, is_busy, cmd_abort,
}
use esp32s3_ota_api.Console.Commands.{IsMemory}
use esp32s3_ota_api.Console.Lifetime.Heard.{during-pending, outcome-pending}
use esp32s3_ota_api.Console.Lifetime.Fits.{
  Fits, at_rest, before_url, before_force, before_flag, before_task, before_failure, rests,
  Fits-busy,
}
use esp32s3_ota_api.Console.Lifetime.{
  Stage, gone, created, updating, told, rebooting, is_alive, Doing, within, failing, to_do, after,
  task_after, is_launching, with_world, Step, types_ota, acts, lowers, aborts, claims, hears,
  releases, tells, moves, Reach, boots, later,
}

module _ (P : Platform) (A : App (P.World)) (R : Rtos P) (K : Kconfig) (options : Options)
    (memory : IsMemory P A R) where
  open P use {World}
  open A use {statics}

  abbrev Inv : State P → Doing → Stage → Type 0
  Inv s c g = Fits (statics s.sys.world).ota_pending s.sys.shared.slot.running c g

  not_alive : (g : Stage) → is_alive g ≡ false → g ≡ gone
  not_alive gone h = refl
  not_alive created h = cc
  not_alive updating h = cc
  not_alive (told err) h = cc
  not_alive rebooting h = cc

  types-Inv :
      (args : List CString) (s : State P) (g : Stage)
      → Inv s (within []) g
      → Inv s (to_do (asked P A R K options args s)) g
  unfolding asked to_do launching is_running
  types-Inv args s g (at_rest _ p r) =
      let arguments = parse args options.default_url false in
      elim (Bool-cases (is_busy P A R K options s)) [
        | inl busy ↦ rw (busy, asked) (at_rest g p r)
        | inr idle ↦ elim (Bool-cases (leb ota_url_size (length arguments.0))) [
          | inl long ↦ rw (idle, long, asked) (at_rest g p r)
          | inr fits ↦
              let out : is_alive g ≡ false = ground (arith, idle, p) in
              rw (idle, fits, not_alive g out, asked)
                (before_url arguments.0 arguments.1 (ground (arith, p, out)) (ground (arith, idle)))
        ]
      ]

  acts-Inv :
      (action : Action) (actions : List Action) (s : State P) (g : Stage)
      → Inv s (within (action ∷ actions)) g
      → let (err, t) = act P A R K options action s in
        Inv t (after err actions) (task_after action err g)
  unfolding act
  acts-Inv (writes_url url) _ s g (before_url _ force p r) =
      before_force force (ap (λ (v : Statics). v.ota_pending) (memory.read_back _ _) ∙ p) r
  acts-Inv (writes_force force) _ s g (before_force _ p r) =
      before_flag (ap (λ (v : Statics). v.ota_pending) (memory.read_back _ _) ∙ p) r
  acts-Inv raises_pending _ s g (before_flag p r) =
      before_task (ap (λ (v : Statics). v.ota_pending) (memory.read_back _ _)) r
  acts-Inv starts_task _ s g (before_task p r) =
      let config = ota_config P A options (statics s.sys.world).ota_url in
      let same = start_task-Same P R K statics memory.apart config s in
      let pending = ap (λ (v : Statics). v.ota_pending) same.values ∙ p in
      let running = ap (λ (x : Shared). x.slot.running) same.slot ∙ r in
      elim (Bool-cases (is_ok (act P A R K options starts_task s).0)) [
        | inl ok ↦ rw ok (at_rest created pending running)
        | inr bad ↦ rw bad (before_failure pending running)
      ]

  lowers-Inv :
      (s : State P) (g : Stage) → Inv s failing g → Inv (lower P A R K options s) (within []) g
  unfolding lower
  lowers-Inv s g (before_failure p r) =
      at_rest gone (ap (λ (v : Statics). v.ota_pending) (memory.read_back _ _)) r

  abort-running : (slot : Slot) → (cmd_abort slot).1.running ≡ slot.running
  unfolding cmd_abort abort
  abort-running slot = ground arith

  tells-Inv :
      (err : Err) (s : State P)
      → Inv s (within []) (told err)
      → Inv
          (with_world P A R K options memory (on_ota_event_cb P A (outcome err) 0 s.sys.world).1 s)
          (within [])
          (if is_ok err then rebooting else gone)
  tells-Inv err s (at_rest _ p r) =
      let heard = (outcome-pending P A R K options memory err s.sys.world).0 in
      elim (Bool-cases (is_ok err)) [
        | inl ok ↦ rw ok (at_rest rebooting ((rw ok at heard) ∙ p) r)
        | inr bad ↦ rw bad (at_rest gone (rw bad at heard) r)
      ]

  Step-Inv :
      {s t : State P} {c d : Doing} {g h : Stage}
      → Step P A R K options memory s c g t d h
      → Inv s c g
      → Inv t d h
  unfolding claim_update_slot release_update_slot
  Step-Inv {s} (types_ota args g) i = types-Inv args s g i
  Step-Inv {s} (acts action actions g) i = acts-Inv action actions s g i
  Step-Inv {s} (lowers g) i = lowers-Inv s g i
  Step-Inv {s} (aborts c g) i = rw (abort-running s.sys.shared.slot) i
  Step-Inv {s} (claims c) i =
      let (idle, p, r) = rests i refl in rw (idle, r) (at_rest updating p refl)
  Step-Inv {s} (hears c event during) i =
      let (idle, p, r) = rests i refl in
      rw idle (
        at_rest updating ((during-pending P A R K options memory event s.sys.world during).0 ∙ p) r)
  Step-Inv {s} (releases c err) i =
      let (idle, p, r) = rests i refl in rw idle (at_rest (told err) p refl)
  Step-Inv {s} (tells c err) i =
      let (idle, p, r) = rests i refl in rw idle (tells-Inv err s (at_rest (told err) p r))
  Step-Inv {s} (moves c g t shared same) i =
      rw (ap (λ (x : Statics). x.ota_pending) same, ap (λ (x : Shared). x.slot.running) shared) i

  Reach-Inv : {s : State P} {c : Doing} {g : Stage} → Reach P A R K options memory s c g → Inv s c g
  Reach-Inv (boots s slot pending) = at_rest gone pending (ap (λ (x : Slot). x.running) slot)
  Reach-Inv (later r st) = Step-Inv st (Reach-Inv r)

  -- However the accesses of the command `ota`, the creation of the task and the task's steps
  -- interleave: in every reachable state the command takes the device for busy exactly if the update
  -- task is there, or the command that was accepted is just about to create it or to take back its
  -- flag because it could not; and these never hold at once. So the device is busy from before the
  -- task is there, over the moments when no update holds the slot, to the failure that the callback
  -- hears, and for good once the image is to be booted.
  pub is_busy-is_alive :
      {s : State P} {c : Doing} {g : Stage}
      → Reach P A R K options memory s c g
      → (is_busy P A R K options s ≡ (is_alive g || is_launching c))
        × ((is_alive g && is_launching c) ≡ false)
  unfolding is_running
  is_busy-is_alive r = Fits-busy (Reach-Inv r)

  acts-url :
      (action : Action) (actions : List Action) (s : State P) (g : Stage)
      → Inv s (within (action ∷ actions)) g
      → (is_alive g || is_launching (within (action ∷ actions))) ≡ true
      → (statics (act P A R K options action s).1.sys.world).ota_url ≡ (statics s.sys.world).ota_url
  unfolding act
  acts-url (writes_url url) _ s g (before_url _ force p r) held = cc
  acts-url (writes_force force) _ s g (before_force _ p r) held = cc
  acts-url raises_pending _ s g (before_flag p r) held = cc
  acts-url starts_task _ s g (before_task p r) held =
      let config = ota_config P A options (statics s.sys.world).ota_url in
      ap (λ (v : Statics). v.ota_url) (start_task-Same P R K statics memory.apart config s).values

  url_kept :
      {s t : State P} {c d : Doing} {g h : Stage}
      → Reach P A R K options memory s c g
      → (is_alive g || is_launching c) ≡ true
      → Step P A R K options memory s c g t d h
      → (statics t.sys.world).ota_url ≡ (statics s.sys.world).ota_url
  unfolding lower
  url_kept r held (types_ota args _) = refl
  url_kept {s} r held (acts action actions g) = acts-url action actions s g (Reach-Inv r) held
  url_kept r held (lowers _) = ap (λ (x : Statics). x.ota_url) (memory.read_back _ _)
  url_kept r held (aborts _ _) = refl
  url_kept r held (claims _) = refl
  url_kept {s} r held (hears _ event during) =
      (during-pending P A R K options memory event s.sys.world during).1
  url_kept r held (releases _ _) = refl
  url_kept {s} r held (tells _ err) = (outcome-pending P A R K options memory err s.sys.world).1
  url_kept r held (moves _ _ t shared same) = ap (λ (x : Statics). x.ota_url) same

  busy-asked :
      (args : List CString) (s : State P)
      → is_busy P A R K options s ≡ true
      → asked P A R K options args s ≡ none
  unfolding asked
  busy-asked args s busy = rw (busy, asked) refl

  -- In a reachable state in which the update task is there, or the command is just about to create
  -- it with a pointer to the URL buffer, no step that the device can take changes the buffer, not
  -- even a single access of a command; and the tests of the command would turn down any arguments.
  pub Step-url :
      {s t : State P} {c d : Doing} {g h : Stage}
      → Reach P A R K options memory s c g
      → (is_alive g || is_launching c) ≡ true
      → Step P A R K options memory s c g t d h
      → ((statics t.sys.world).ota_url ≡ (statics s.sys.world).ota_url)
        × ((args : List CString) → asked P A R K options args s ≡ none)
  Step-url {s} r held st =
      (url_kept r held st, λ args. busy-asked args s ((is_busy-is_alive r).0 ∙ held))
