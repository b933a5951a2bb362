-- ===== src/Console/Lifetime/Fits.antt =====
-- examples/advanced/main/main.c: where the command `ota` stands, with its flag and the task that it
-- creates.
use esp32s3_ota_api.Prelude.{◌≡◌, refl, ◌∙◌, Bool, true, false, ◌||◌, ◌&&◌, [], ◌∷◌, arith}
use esp32s3_ota_api.Prelude.CString.{CString}
use esp32s3_ota_api.Console.{writes_url, writes_force, raises_pending, starts_task}
use esp32s3_ota_api.Console.Lifetime.{
  Stage, gone, created, updating, told, rebooting, is_alive, owns_slot, Doing, within, failing,
  is_launching,
}

-- How the flag, the slot and the task stand to what the console has still to do.
pub data Fits (pending running : Bool) : Doing → Stage → Type 0 where
  at_rest :
      (g : Stage)
      → pending ≡ is_alive g
      → running ≡ owns_slot g
      → Fits pending running (within []) g
  before_url :
      (url : CString) (force : Bool)
      → pending ≡ false
      → running ≡ false
      → Fits pending running
          (within (writes_url url ∷ writes_force force ∷ raises_pending ∷ starts_task ∷ []))
          gone
  before_force :
      (force : Bool)
      → pending ≡ false
      → running ≡ false
      → Fits pending running (within (writes_force force ∷ raises_pending ∷ starts_task ∷ [])) gone
  before_flag :
      pending ≡ false
      → running ≡ false
      → Fits pending running (within (raises_pending ∷ starts_task ∷ [])) gone
  before_task :
      pending ≡ true → running ≡ false → Fits pending running (within (starts_task ∷ [])) gone
  before_failure : pending ≡ true → running ≡ false → Fits pending running failing gone

-- While the task is there, the console is in no command.
pub rests :
    {pending running : Bool} {c : Doing} {g : Stage}
    → Fits pending running c g
    → is_alive g ≡ true
    → (c ≡ within []) × (pending ≡ true) × (running ≡ owns_slot g)
rests (at_rest g p r) alive = (refl, p ∙ alive, r)
rests (before_url url force p r) alive = cc
rests (before_force force p r) alive = cc
rests (before_flag p r) alive = cc
rests (before_task p r) alive = cc
rests (before_failure p r) alive = cc

at_rest_alive :
    {pending running : Bool} (g : Stage)
    → pending ≡ is_alive g
    → running ≡ owns_slot g
    → ((pending || running) ≡ (is_alive g || false)) × ((is_alive g && false) ≡ false)
at_rest_alive gone p r = (ground (arith, p, r), refl)
at_rest_alive created p r = (ground (arith, p, r), refl)
at_rest_alive updating p r = (ground (arith, p, r), refl)
at_rest_alive (told err) p r = (ground (arith, p, r), refl)
at_rest_alive rebooting p r = (ground (arith, p, r), refl)

pub Fits-busy :
    {pending running : Bool} {c : Doing} {g : Stage}
    → Fits pending running c g
    → ((pending || running) ≡ (is_alive g || is_launching c))
      × ((is_alive g && is_launching c) ≡ false)
Fits-busy (at_rest g p r) = at_rest_alive g p r
Fits-busy (before_url url force p r) = (ground (arith, p, r), refl)
Fits-busy (before_force force p r) = (ground (arith, p, r), refl)
Fits-busy (before_flag p r) = (ground (arith, p, r), refl)
Fits-busy (before_task p r) = (ground (arith, p, r), refl)
Fits-busy (before_failure p r) = (ground (arith, p, r), refl)
