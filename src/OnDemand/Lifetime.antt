-- ===== src/OnDemand/Lifetime.antt =====
-- examples/on_demand/main/main.c: the console, which writes the URL buffer, interleaved with the
-- worker, which reads it.
use mathlib.Core.Option.{some-injective}
use esp32s3_ota_api.Prelude.{
  ◌≡◌, sym, ap, ◌∙◌, inl, inr, Bool, true, false, ◌||◌, ◌&&◌, some, List, [], ◌∷◌, leb, length,
  refl, arith, if◌then◌else◌, Bool-cases,
}
use esp32s3_ota_api.Prelude.CString.{CString}
use esp32s3_ota_api.Err.{Err, is_ok}
use esp32s3_ota_api.Config.{Kconfig}
use esp32s3_ota_api.System.{Platform, Sys}
use esp32s3_ota_api.OnDemand.{
  ota_url_size, Statics, App, Round, restarts, Action, writes_url, raises_flag, gives, url_of, act,
  requested, pending, asked_url, conclude,
}
use esp32s3_ota_api.OnDemand.Semaphore.{IsBinary}

-- Where the worker stands: at the semaphore, in `ota_api_update`, or on its way to the restart.
pub data Stage : Type 0 where
  waiting updating rebooting : Stage

abbrev pub is_serving : Stage → Bool
is_serving waiting = false
is_serving _ = true

abbrev pub stage_of : Round → Stage
stage_of restarts = rebooting
stage_of _ = waiting

-- The flag is up, and the semaphore about to be given.
abbrev pub is_giving : List Action → Bool
is_giving (gives ∷ _) = true
is_giving _ = false

-- How the flag, the semaphore and the worker stand to what the console has still to do.
data Fits (flag held serving : Bool) : List Action → Type 0 where
  at_rest : flag ≡ (held || serving) → (held && serving) ≡ false → Fits flag held serving []
  before_url :
      (url : CString)
      → flag ≡ false
      → held ≡ false
      → serving ≡ false
      → Fits flag held serving (writes_url url ∷ raises_flag ∷ gives ∷ [])
  before_flag :
      flag ≡ false
      → held ≡ false
      → serving ≡ false
      → Fits flag held serving (raises_flag ∷ gives ∷ [])
  before_give : flag ≡ true → held ≡ false → serving ≡ false → Fits flag held serving (gives ∷ [])

-- With a request on record the console is in no command.
rests :
    {flag held serving : Bool} {todo : List Action}
    → Fits flag held serving todo
    → (held || serving) ≡ true
    → todo ≡ []
rests (at_rest f x) on = refl
rests (before_url url f h s) on = absurd (ground (arith, h, s, on))
rests (before_flag f h s) on = absurd (ground (arith, h, s, on))
rests (before_give f h s) on = absurd (ground (arith, h, s, on))

Fits-flag :
    {flag held serving : Bool} {todo : List Action}
    → Fits flag held serving todo
    → (flag ≡ (held || serving || is_giving todo))
      × ((held && serving) ≡ false)
      × ((is_giving todo && (held || serving)) ≡ false)
Fits-flag (at_rest f x) = (ground (arith, f), x, refl)
Fits-flag (before_url url f h s) = (ground (arith, f, h, s), ground (arith, h, s), refl)
Fits-flag (before_flag f h s) = (ground (arith, f, h, s), ground (arith, h, s), refl)
Fits-flag (before_give f h s) =
    (ground (arith, f, h, s), ground (arith, h, s), ground (arith, h, s))

module _ (P : Platform) (A : App (P.World)) (given : P.World → Bool) (memory : IsBinary A given)
    (skip : Bool) (K : Kconfig) (default_url : CString) where
  open P use {World}
  open A use {statics, semaphore_take}

  abbrev pub with_world : World → Sys World → Sys World
  with_world w s = record s { world = w }

  -- One step of the device: a command typed, and its tests; an access of that command to what it
  -- shares with the worker; a step of the worker; or a change of what is neither a variable nor the
  -- semaphore, such as those of an update. The console takes no other command before it is done.
  pub data Step (s : Sys World)
      : List Action → Stage → Sys World → List Action → Stage → Type 0 where
    types_ota :
        (args : List CString) (g : Stage)
        → Step s [] g s (pending (asked_url P A default_url args s.world)) g
    acts :
        (action : Action) (todo : List Action) (g : Stage)
        → Step s (action ∷ todo) g (with_world (act P A action s.world) s) todo g
    takes :
        (todo : List Action) (w : World)
        → semaphore_take s.world ≡ some w
        → Step s todo waiting (with_world w s) todo updating
    returns :
        (todo : List Action) (err : Err)
        → Step s todo updating
            (conclude P A skip K (err, s)).1
            todo
            (stage_of (conclude P A skip K (err, s)).0)
    moves :
        (todo : List Action) (g : Stage) (t : Sys World)
        → statics t.world ≡ statics s.world
        → given t.world ≡ given s.world
        → Step s todo g t todo g

  -- From the start of the worker on.
  pub data Reach : Sys World → List Action → Stage → Type 0 where
    starts :
        (s : Sys World)
        → (statics s.world).ota_running ≡ false
        → given s.world ≡ false
        → Reach s [] waiting
    later :
        {s t : Sys World} {k l : List Action} {g h : Stage}
        → Reach s k g
        → Step s k g t l h
        → Reach t l h

  abbrev Inv : Sys World → List Action → Stage → Type 0
  Inv s todo g = Fits (statics s.world).ota_running (given s.world) (is_serving g) todo

  types-Inv :
      (args : List CString) (s : Sys World) (g : Stage)
      → Inv s [] g
      → Inv s (pending (asked_url P A default_url args s.world)) g
  unfolding asked_url pending requested
  types-Inv args s g (at_rest flag single) = elim (Bool-cases (statics s.world).ota_running) [
    | inl busy ↦ rw (busy, asked_url) (at_rest (sym busy ∙ flag) single)
    | inr idle ↦ elim (Bool-cases (leb ota_url_size (length (url_of default_url args)))) [
      | inl long ↦ rw (idle, long, asked_url) (at_rest (sym idle ∙ flag) single)
      | inr fits ↦
          rw (idle, fits, asked_url)
            (before_url (url_of default_url args) refl (ground (arith, flag, idle))
              (ground (arith, flag, idle)))
    ]
  ]

  acts-Inv :
      (action : Action) (todo : List Action) (s : Sys World) (g : Stage)
      → Inv s (action ∷ todo) g
      → Inv (with_world (act P A action s.world) s) todo g
  unfolding act
  acts-Inv (writes_url url) todo s g (before_url _ f h x) =
      before_flag (ap (λ (v : Statics). v.ota_running) (memory.read_back _ s.world) ∙ f)
        (memory.store_given _ s.world ∙ h) x
  acts-Inv raises_flag todo s g (before_flag f h x) =
      before_give (ap (λ (v : Statics). v.ota_running) (memory.read_back _ s.world))
        (memory.store_given _ s.world ∙ h) x
  acts-Inv gives todo s g (before_give f h x) =
      at_rest
        (ap (λ (v : Statics). v.ota_running) (memory.give_apart s.world)
          ∙ f
          ∙ ground (arith, memory.give_given s.world))
        (ground (arith, x))

  -- The semaphore that a task has taken could be taken, and is given no more.
  taken-apart :
      (s : Sys World) (w : World)
      → semaphore_take s.world ≡ some w
      → (given s.world ≡ true) × (given w ≡ false) × (statics w ≡ statics s.world)
  taken-apart s w e = elim (Bool-cases (given s.world)) [
    | inl up ↦
        let (w', got, down, same) = memory.take_given s.world up in
        let one = some-injective _ _ (sym e ∙ got) in
        (up, ap given one ∙ down, ap statics one ∙ same)
    | inr down ↦ let blocked = memory.take_empty s.world down in cc
  ]

  -- The variables after `ota_api_update` has returned.
  returned-apart :
      (err : Err) (s : Sys World)
      → let (turn, t) = conclude P A skip K (err, s) in
        ((statics t.world).ota_running
          ≡ (if is_serving (stage_of turn) then (statics s.world).ota_running else false))
        × ((statics t.world).ota_url ≡ (statics s.world).ota_url)
        × (given t.world ≡ given s.world)
  unfolding conclude
  returned-apart err s = elim (Bool-cases (is_ok err)) [
    | inl ok ↦
        let same = memory.shut_down_apart s.world in
        rw (ok, conclude)
          (
            ap (λ (x : Statics). x.ota_running) same,
            ap (λ (x : Statics). x.ota_url) same,
            memory.shut_down_given s.world,
          )
    | inr bad ↦
        let back = memory.read_back _ s.world in
        rw (bad, conclude)
          (
            ap (λ (x : Statics). x.ota_running) back,
            ap (λ (x : Statics). x.ota_url) back,
            memory.store_given _ s.world,
          )
  ]

  takes-Inv :
      (todo : List Action) (s : Sys World) (w : World)
      → semaphore_take s.world ≡ some w
      → Inv s todo waiting
      → Inv (with_world w s) todo updating
  takes-Inv todo s w e i =
      let (up, down, same) = taken-apart s w e in
      let flag = (Fits-flag i).0 in
      rw (rests i (ground (arith, up))) (
        at_rest (ap (λ (x : Statics). x.ota_running) same ∙ ground (arith, flag, up))
          (ground (arith, down)))

  returns-Inv :
      (todo : List Action) (err : Err) (s : Sys World)
      → Inv s todo updating
      → let (turn, t) = conclude P A skip K (err, s) in Inv t todo (stage_of turn)
  returns-Inv todo err s i =
      let (flag, url, same) = returned-apart err s in
      let (before, single, apart) = Fits-flag i in
      rw (rests i (ground arith))
        (at_rest (ground (arith, flag, same, before, single)) (ground (arith, same, single)))

  Step-Inv :
      {s t : Sys World} {k l : List Action} {g h : Stage} → Step s k g t l h → Inv s k g → Inv t l h
  Step-Inv {s} (types_ota args g) i = types-Inv args s g i
  Step-Inv {s} (acts action todo g) i = acts-Inv action todo s g i
  Step-Inv {s} (takes todo w e) i = takes-Inv todo s w e i
  Step-Inv {s} (returns todo err) i = returns-Inv todo err s i
  Step-Inv {s} (moves todo g t variables semaphore) i =
      rw (semaphore, ap (λ (x : Statics). x.ota_running) variables) i

  Reach-Inv : {s : Sys World} {k : List Action} {g : Stage} → Reach s k g → Inv s k g
  Reach-Inv (starts s down none_given) =
      at_rest (down ∙ ground (arith, none_given)) (ground (arith, none_given))
  Reach-Inv (later r st) = Step-Inv st (Reach-Inv r)

  -- However the console's accesses and the worker's steps interleave: in every reachable state the
  -- flag is up exactly if the semaphore can be taken, the worker serves the request that it took, or
  -- the console is just about to give the semaphore; and no two of these hold at once. So a command
  -- that is accepted never finds a semaphore that is given already.
  pub ota_running-given :
      {s : Sys World} {todo : List Action} {g : Stage}
      → Reach s todo g
      → ((statics s.world).ota_running ≡ (given s.world || is_serving g || is_giving todo))
        × ((given s.world && is_serving g) ≡ false)
        × ((is_giving todo && (given s.world || is_serving g)) ≡ false)
  ota_running-given r = Fits-flag (Reach-Inv r)

  -- In a reachable state in which a request is on record, that is, the semaphore can be taken or the
  -- worker serves the request that it took, no step that the device can take changes the URL buffer
  -- that the worker reads, or is about to read: not even a single access of a command.
  pub Step-ota_url :
      {s t : Sys World} {k l : List Action} {g h : Stage}
      → Reach s k g
      → (given s.world || is_serving g) ≡ true
      → Step s k g t l h
      → (statics t.world).ota_url ≡ (statics s.world).ota_url
  Step-ota_url {s} r held (types_ota args g) = refl
  Step-ota_url {s} r held (acts action todo g) =
      let none_left = rests (Reach-Inv r) held in absurd (ground (arith, none_left))
  Step-ota_url {s} r held (takes todo w e) = ap (λ (x : Statics). x.ota_url) (taken-apart s w e).2
  Step-ota_url {s} r held (returns todo err) = (returned-apart err s).1
  Step-ota_url r held (moves todo g t variables semaphore) =
      ap (λ (x : Statics). x.ota_url) variables
