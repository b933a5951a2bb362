-- ===== src/Startup/Rules.antt =====
-- Rules for the order of calls, one for each way to build a program.
use esp32s3_ota_api.Prelude.{
  Bool-cases, ◌≡◌, refl, inl, inr, Bool, true, false, ◌&&◌, List, [], ◌∷◌, arith, if◌then◌else◌,
}
use esp32s3_ota_api.Err.{Err, is_ok}
use esp32s3_ota_api.Startup.{
  Handler, Command, Call, registers, Idf, Boot, Result, done, halted, Program, continue, pure, halt,
  ◌>>=◌, call_own, call, error_check, checked, silently, register_all,
}
use esp32s3_ota_api.Startup.Order.{same, all_of, ordered, failed, needs}

-- What is known of the calls so far.
abbrev pub Fact : Type 0
Fact = List (Call × Err) → Bool

-- The order kept so far, and a fact.
abbrev pub Kept : {T W : Type 0} → (Call → List Call) → Fact → Boot T W → Type 0
Kept needs fact b = (ordered needs b.calls ≡ true) × (fact b.calls ≡ true)

-- The device halts only at a call that failed.
abbrev pub Follows :
    {T W A : Type 0} → (Call → List Call) → (A → Fact) → Result A × Boot T W → Type 0
Follows needs after (done a, b) = Kept needs (after a) b
Follows needs after (halted, b) = Kept needs failed b

-- From the fact `before`, `m` calls only what it may, and if it returns, the fact `after` holds.
pub record Leads {T W A : Type 0} (needs : Call → List Call) (before : Fact) (m : Program T W A)
    (after : A → Fact) : Type 0 where
  pub at : (b : Boot T W) → Kept needs before b → Follows needs after (m b)

all_of-cons :
    (cs : List Call) (d : Call) (err : Err) (calls : List (Call × Err))
    → all_of cs calls ≡ true
    → all_of cs ((d, err) ∷ calls) ≡ true
all_of-cons [] d err calls h = refl
all_of-cons (c ∷ cs) d err calls h = ground (arith, all_of-cons cs d err calls)

same_self : (c : Call) → same c c ≡ true
same_self c = ground arith

-- What a call adds, by its result.
abbrev pub adds : Call → List Call → Err → Fact
adds c before err calls =
    if is_ok err then all_of (c ∷ before) calls else failed calls && all_of before calls

module _ {T W : Type 0} {needs : Call → List Call} where
  pub Leads-pure :
      {A : Type 0} (a : A) (after : A → Fact) → Leads needs (after a) (pure {T = T} {W = W} a) after
  unfolding pure
  Leads-pure a after = record { at = λ b k. k }

  pub Leads-bind :
      {A B : Type 0} {before : Fact} {m : Program T W A} {f : A → Program T W B} {mid : A → Fact}
      {after : B → Fact}
      → Leads needs before m mid
      → ((a : A) → Leads needs (mid a) (f a) after)
      → Leads needs before (m >>= f) after
  unfolding ◌>>=◌
  Leads-bind {A = A} {B = B} {before = before} {m = m} {f = f} {mid = mid} {after = after} l k =
      record { at = λ b h. onwards (m b) (l.at b h) }
    where
      onwards :
          (r : Result A × Boot T W) → Follows needs mid r → Follows needs after (continue r.0 f r.1)
      onwards (done a, b') h = (k a).at b' h
      onwards (halted, b') h = h

  pub Leads-call_own :
      (c : Call) (op : T → W → Err × T × W) (before : List Call)
      → ((calls : List (Call × Err)) → all_of before calls ≡ true → all_of (needs c) calls ≡ true)
      → Leads needs (all_of before) (call_own c op) (adds c before)
  unfolding call_own
  Leads-call_own c op before met = record {
    at = λ b k.
        let (kept, had) = k in
        let err = (op b.own b.world).0 in
        let may = met b.calls had in
        let still = all_of-cons before c err b.calls had in
        (
          ground (arith, kept, may),
          elim (Bool-cases (is_ok err)) [
            | inl ok ↦ ground (arith, ok, still, same_self c)
            | inr bad ↦ ground (arith, bad, still)
          ],
        );
  }

  pub Leads-call :
      (c : Call) (op : W → Err × W) (before : List Call)
      → ((calls : List (Call × Err)) → all_of before calls ≡ true → all_of (needs c) calls ≡ true)
      → Leads needs (all_of before) (call {T = T} c op) (adds c before)
  unfolding call
  Leads-call c op before met = Leads-call_own c _ before met

  pub Leads-error_check :
      (c : Call) (before : List Call) (err : Err)
      → Leads needs (adds c before err) (error_check {T = T} {W = W} err) (λ _. all_of (c ∷ before))
  unfolding error_check pure halt
  Leads-error_check c before err = elim (Bool-cases (is_ok err)) [
    | inl ok ↦
        rw (ok, error_check)
          (record { at = λ b k. let (kept, fact) = k in (kept, ground (arith, ok, fact)) })
    | inr bad ↦
        rw (bad, error_check)
          (record { at = λ b k. let (kept, fact) = k in (kept, ground (arith, bad, fact)) })
  ]

  pub Leads-checked :
      (c : Call) (op : W → Err × W) (before : List Call)
      → ((calls : List (Call × Err)) → all_of before calls ≡ true → all_of (needs c) calls ≡ true)
      → Leads needs (all_of before) (checked {T = T} c op) (λ _. all_of (c ∷ before))
  unfolding checked
  Leads-checked c op before met =
      Leads-bind (Leads-call c op before met) (λ err. Leads-error_check c before err)

  pub Leads-silently :
      (op : W → W) (before : Fact) → Leads needs before (silently {T = T} op) (λ _. before)
  unfolding silently
  Leads-silently op before = record { at = λ b k. k }

  pub Leads-if :
      {A : Type 0} (test : Bool) (m n : Program T W A) (before : Fact) (after : A → Fact)
      → Leads needs before m after
      → Leads needs before n after
      → Leads needs before (if test then m else n) after
  Leads-if true m n before after l k = l
  Leads-if false m n before after l k = k

  -- Fewer calls may be known to have succeeded before, or taken to after.
  pub Leads-weaken :
      {A : Type 0} {before less : Fact} {m : Program T W A} {after less_after : A → Fact}
      → ((calls : List (Call × Err)) → before calls ≡ true → less calls ≡ true)
      → ((a : A) (calls : List (Call × Err)) → after a calls ≡ true → less_after a calls ≡ true)
      → Leads needs less m after
      → Leads needs before m less_after
  Leads-weaken {A = A} {before = before} {m = m} {after = after} {less_after = less_after} first
        last l =
      record { at = λ b k. fewer (m b) (l.at b (k.0, first b.calls k.1)) }
    where
      fewer : (r : Result A × Boot T W) → Follows needs after r → Follows needs less_after r
      fewer (done a, b') h = (h.0, last a b'.calls h.1)
      fewer (halted, b') h = h

-- The registrations of `commands`, the latest first.
abbrev pub registered : List Command → List Call → List Call
registered [] before = before
registered (c ∷ commands) before = registered commands (registers c.func ∷ before)

module _ {T W : Type 0} {needs : Call → List Call} (I : Idf W) where
  pub Leads-register_all :
      (commands : List Command) (before : List Call)
      → ((h : Handler) (calls : List (Call × Err))
          → all_of before calls ≡ true
          → all_of (needs (registers h)) calls ≡ true)
      → Leads needs
          (all_of before)
          (register_all {T = T} I commands)
          (λ _. all_of (registered commands before))
  unfolding register_all
  Leads-register_all [] before met = Leads-pure tt (λ _. all_of before)
  Leads-register_all (c ∷ commands) before met =
      Leads-bind (Leads-checked (registers c.func) (I.console_cmd_register c) before (met c.func))
        (λ _.
          Leads-register_all commands (registers c.func ∷ before)
            (λ h calls k. met h calls (ground arith)))
