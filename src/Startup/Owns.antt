-- ===== src/Startup/Owns.antt =====
-- Rules for what a program leaves in its own variables, one for each way to build it.
use esp32s3_ota_api.Prelude.{Bool-cases, ◌≡◌, inl, inr, Bool, true, false, if◌then◌else◌}
use esp32s3_ota_api.Err.{Err, is_ok}
use esp32s3_ota_api.Startup.{
  Call, nvs_init, nvs_erase, netif_init, event_loop, Idf, Boot, Result, done, halted, Program,
  continue, pure, halt, ◌>>=◌, call_own, call, error_check, checked, silently, wants_erase,
  retry_nvs, init_nvs, init_netif, spare_no_power,
}

-- A fact at the return of a step.
abbrev pub Returned : {T W A : Type 0} → (A → T → Type 0) → Result A × Boot T W → Type 0
Returned after (done a, b) = after a b.own
Returned after (halted, b) = Unit

-- From variables of which `before` holds, `m` returns, if at all, with variables of which `after`
-- does.
pub record Owns {T W A : Type 0} (before : T → Type 0) (m : Program T W A) (after : A → T → Type 0)
    : Type 0 where
  pub at : (b : Boot T W) → before b.own → Returned after (m b)

module _ {T W : Type 0} where
  pub Owns-pure :
      {A : Type 0} (a : A) (after : A → T → Type 0) → Owns (after a) (pure {T = T} {W = W} a) after
  unfolding pure
  Owns-pure a after = record { at = λ b h. h }

  pub Owns-bind :
      {A B : Type 0} {before : T → Type 0} {m : Program T W A} {f : A → Program T W B}
      {mid : A → T → Type 0} {after : B → T → Type 0}
      → Owns before m mid
      → ((a : A) → Owns (mid a) (f a) after)
      → Owns before (m >>= f) after
  unfolding ◌>>=◌
  Owns-bind {A = A} {m = m} {f = f} {mid = mid} {after = after} o k = record {
    at = λ b h. onwards (m b) (o.at b h);
  }
    where
      onwards : (r : Result A × Boot T W) → Returned mid r → Returned after (continue r.0 f r.1)
      onwards (done a, b') h = (k a).at b' h
      onwards (halted, b') h = tt

  pub Owns-call_own :
      (c : Call) (op : T → W → Err × T × W) {before : T → Type 0} (after : Err → T → Type 0)
      → ((own : T) (w : W) → before own → after (op own w).0 (op own w).1)
      → Owns before (call_own c op) after
  unfolding call_own
  Owns-call_own c op after works = record { at = λ b h. works b.own b.world h }

  pub Owns-call :
      (c : Call) (op : W → Err × W) (before : T → Type 0)
      → Owns before (call {T = T} c op) (λ _. before)
  unfolding call
  Owns-call c op before = Owns-call_own c _ (λ _. before) (λ own w h. h)

  -- After the check, the result was ESP_OK.
  pub Owns-error_check :
      (err : Err) (before after : T → Type 0)
      → ((own : T) → is_ok err ≡ true → before own → after own)
      → Owns before (error_check {T = T} {W = W} err) (λ _. after)
  unfolding error_check pure halt
  Owns-error_check err before after works = elim (Bool-cases (is_ok err)) [
    | inl ok ↦ rw (ok, error_check) (record { at = λ b h. works b.own ok h })
    | inr bad ↦ rw (bad, error_check) (record { at = λ b h. tt })
  ]

  pub Owns-checked :
      (c : Call) (op : W → Err × W) (before : T → Type 0)
      → Owns before (checked {T = T} c op) (λ _. before)
  unfolding checked
  Owns-checked c op before =
      Owns-bind (Owns-call c op before) (λ err. Owns-error_check err before before (λ own ok h. h))

  -- A call, and the check of its result.
  pub Owns-required :
      (c : Call) (op : T → W → Err × T × W) (before after : T → Type 0)
      → ((own : T) (w : W) → before own → is_ok (op own w).0 ≡ true → after (op own w).1)
      → Owns before (call_own c op >>= λ err. error_check err) (λ _. after)
  Owns-required c op before after works =
      Owns-bind (Owns-call_own c op (λ err own. is_ok err ≡ true → after own) works)
        (λ err. Owns-error_check err _ after (λ own ok h. h ok))

  pub Owns-from :
      {A : Type 0} {before less : T → Type 0} {m : Program T W A} {after : A → T → Type 0}
      → ((own : T) → before own → less own)
      → Owns less m after
      → Owns before m after
  Owns-from first o = record { at = λ b h. o.at b (first b.own h) }

  pub Owns-if :
      {A : Type 0} (test : Bool) (m n : Program T W A) (before : T → Type 0)
      (after : A → T → Type 0)
      → Owns before m after
      → Owns before n after
      → Owns before (if test then m else n) after
  Owns-if true m n before after o k = o
  Owns-if false m n before after o k = k

  module _ (I : Idf W) (before : T → Type 0) where
    pub Owns-init_nvs : Owns before (init_nvs {T = T} I) (λ _. before)
    unfolding init_nvs retry_nvs
    Owns-init_nvs = Owns-bind (Owns-call nvs_init I.nvs_flash_init before) (λ err.
        Owns-bind
          (Owns-if (wants_erase err) (retry_nvs I) (pure err) before (λ _. before)
            (Owns-bind (Owns-checked nvs_erase I.nvs_flash_erase before)
              (λ _. Owns-call nvs_init I.nvs_flash_init before))
            (Owns-pure err (λ _. before)))
          (λ err'. Owns-error_check err' before before (λ own ok h. h)))

    pub Owns-init_netif : Owns before (init_netif {T = T} I) (λ _. before)
    unfolding init_netif
    Owns-init_netif =
        Owns-bind (Owns-checked netif_init I.netif_init before)
          (λ _. Owns-checked event_loop I.event_loop_create_default before)

    pub Owns-spare_no_power :
        (connect_wifi : Bool) → Owns before (spare_no_power {T = T} I connect_wifi) (λ _. before)
    unfolding spare_no_power silently
    Owns-spare_no_power connect_wifi =
        Owns-if connect_wifi (silently I.wifi_set_ps_none) (pure tt) before (λ _. before)
          (record { at = λ b h. h }) (Owns-pure tt (λ _. before))
