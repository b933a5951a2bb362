-- ===== src/Console/Input.antt =====
-- examples/advanced/main/main.c: the arguments of the `ota` command.
use esp32s3_ota_api.Prelude.{
  ℕ, suc, ◌≡◌, ◌≢◌, ◌↔◌, ◌⊎◌, refl, sym, ap, ◌∙◌, inl, inr, Bool, true, false, List, [], ◌∷◌, ◌++◌,
  arith, ◌==◌, replicate, Bool-cases,
}
use esp32s3_ota_api.Prelude.CString.{CString, codes, is_zero, strcmp}
use esp32s3_ota_api.Console.{is_force, parse}

equal_of_strcmp : (s t : CString) → is_zero (strcmp s t) ≡ true → s ≡ t
unfolding strcmp
equal_of_strcmp [] [] h = refl
equal_of_strcmp [] (b ∷ t) h = cc
equal_of_strcmp (a ∷ s) [] h = cc
equal_of_strcmp (a ∷ s) (b ∷ t) h = elim (Bool-cases (a == b)) [
  | inl same ↦
      let rest = equal_of_strcmp s t (ground arith) in
      let first : a ≡ b = ground arith in rw (first, rest) refl
  | inr differ ↦ absurd (ground arith)
]

strcmp_self : (s : CString) → is_zero (strcmp s s) ≡ true
unfolding strcmp
strcmp_self [] = refl
strcmp_self (a ∷ s) = ground (arith, strcmp_self s)

pub is_zero-strcmp : (s t : CString) → (is_zero (strcmp s t) ≡ true) ↔ (s ≡ t)
is_zero-strcmp s t = (equal_of_strcmp s t, λ e. rw e (strcmp_self t))

abbrev pub word : CString
word = codes "force"

-- `u` is the last of the arguments other than `force`, or `url` if there is none.
abbrev pub Chosen : List CString → CString → CString → Type 0
Chosen args url u =
    ((k : ℕ) × (args ≡ replicate k word) × (u ≡ url))
    ⊎ ((before : List CString) × (k : ℕ) × (args ≡ before ++ u ∷ replicate k word) × (u ≢ word))

-- `force` is among the arguments.
abbrev pub Forces : List CString → Type 0
Forces args = (before after : List CString) × (args ≡ before ++ word ∷ after)

Chosen-word :
    (arg : CString) (args : List CString) (url u : CString)
    → arg ≡ word
    → Chosen args url u
    → Chosen (arg ∷ args) url u
Chosen-word arg args url u here (inl (k, all, same)) = inl (suc k, rw (here, all) refl, same)
Chosen-word arg args url u here (inr (before, k, shape, other)) =
    inr (arg ∷ before, k, ap (λ xs. arg ∷ xs) shape, other)

Chosen-url :
    (arg : CString) (args : List CString) (url u : CString)
    → arg ≢ word
    → Chosen args arg u
    → Chosen (arg ∷ args) url u
Chosen-url arg args url u other (inl (k, all, same)) =
    inr ([], k, rw (all, same) refl, λ e. other (sym same ∙ e))
Chosen-url arg args url u other (inr (before, k, shape, no_word)) =
    inr (arg ∷ before, k, ap (λ xs. arg ∷ xs) shape, no_word)

parse-Chosen :
    (args : List CString) (url : CString) (force : Bool) → Chosen args url (parse args url force).0
unfolding parse
parse-Chosen [] url force = inl (0, refl, refl)
parse-Chosen (arg ∷ args) url force = elim (Bool-cases (is_force arg)) [
  | inl found ↦
      rw (found, parse)
        (Chosen-word arg args url _ ((is_zero-strcmp arg word).0 found)
          (parse-Chosen args url true))
  | inr absent ↦
      rw (absent, parse)
        (Chosen-url arg args url _
          (λ e. let found = (is_zero-strcmp arg word).1 e in absurd (ground arith))
          (parse-Chosen args arg force))
]

parse-forced : (args : List CString) (url : CString) → (parse args url true).1 ≡ true
unfolding parse
parse-forced [] url = refl
parse-forced (arg ∷ args) url = elim (Bool-cases (is_force arg)) [
  | inl found ↦ rw (found, parse) (parse-forced args url)
  | inr absent ↦ rw (absent, parse) (parse-forced args arg)
]

Forces-parse : (args : List CString) (url : CString) → (parse args url false).1 ≡ true → Forces args
unfolding parse
Forces-parse [] url h = cc
Forces-parse (arg ∷ args) url h = elim (Bool-cases (is_force arg)) [
  | inl found ↦ ([], args, ap (λ (x : CString). x ∷ args) ((is_zero-strcmp arg word).0 found))
  | inr absent ↦
      let (before, after, shape) = Forces-parse args arg (rw (absent, parse) at h) in
      (arg ∷ before, after, ap (λ xs. arg ∷ xs) shape)
]

parse-Forces :
    (before after : List CString) (url : CString)
    → (parse (before ++ word ∷ after) url false).1 ≡ true
unfolding parse
parse-Forces [] after url = rw ((is_zero-strcmp word word).1 refl, parse) (parse-forced after url)
parse-Forces (arg ∷ before) after url = elim (Bool-cases (is_force arg)) [
  | inl found ↦ rw (found, parse) (parse-forced (before ++ word ∷ after) url)
  | inr absent ↦ rw (absent, parse) (parse-Forces before after arg)
]

-- Of the arguments of `ota`, in any order, the last that is not "force" is the URL, or the default
-- if there is none; and the update is forced exactly if "force" is among them.
pub parse-Chosen-Forces :
    (args : List CString) (url : CString)
    → let (u, force) = parse args url false in Chosen args url u × ((force ≡ true) ↔ Forces args)
parse-Chosen-Forces args url = (
  parse-Chosen args url false,
  (
    Forces-parse args url,
    λ f. let (before, after, shape) = f in rw shape (parse-Forces before after url),
  ),
)
