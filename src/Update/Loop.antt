-- ===== src/Update/Loop.antt =====
-- src/ota-api.c, the loop of `download_image`: the rule of its invariants, and its end.
use mathlib.Core.Path.{subst}
use mathlib.Core.Option.{some-injective}
use esp32s3_ota_api.Prelude.{ℕ, zero, suc, ◌≡◌, Option, some}
use esp32s3_ota_api.Prelude.Int.{ℤ}
use esp32s3_ota_api.Config.{Config}
use esp32s3_ota_api.System.{Platform, Sys}
use esp32s3_ota_api.Update.{Exit, Turn, again, leave, round, proceed, rounds}

module _ (P : Platform) where
  open P use {World, Handle}

  -- `I` before a round, of `last_report_us` too, and `Q` at an exit, after a round that ended so.
  abbrev pub Holds :
      (ℤ → Sys World → Type 0) → (Exit → Sys World → Type 0) → Turn → Sys World → Type 0
  Holds I Q (again last) s = I last s
  Holds I Q (leave exit) s = Q exit s

  module _ (handle : Handle) (config : Config World) (total : ℤ) (I : ℤ → Sys World → Type 0)
      (Q : Exit → Sys World → Type 0)
      (step : (last : ℤ) (s : Sys World)
        → I last s
        → let (turn, s') = round P handle config total last s in Holds I Q turn s') where
    proceed_rule :
        (more : ℤ → Sys World → Option (Exit × Sys World))
        → ((last : ℤ) (s : Sys World) (r : Exit × Sys World)
            → I last s
            → more last s ≡ some r
            → Q r.0 r.1)
        → (turn : Turn) (s : Sys World) (r : Exit × Sys World) → Holds I Q turn s
        → proceed P more turn s ≡ some r
        → Q r.0 r.1
    unfolding proceed
    proceed_rule more rest (again last) s r h e = rest last s r h e
    proceed_rule more rest (leave exit) s r h e = subst (λ q. Q q.0 q.1) (some-injective _ _ e) h

    pub rounds_rule :
        (fuel : ℕ) (last : ℤ) (s : Sys World) (r : Exit × Sys World)
        → I last s
        → rounds P fuel handle config total last s ≡ some r
        → Q r.0 r.1
    unfolding rounds
    rounds_rule zero last s r h e = cc
    rounds_rule (suc fuel) last s r h e =
        let (turn, s') = round P handle config total last s in
        proceed_rule (rounds P fuel handle config total) (rounds_rule fuel) turn s' r
          (step last s h) e
