-- ===== src/Prelude/CString/Compare.antt =====
-- `strncasecmp` answers zero exactly on strings that begin alike.
use esp32s3_ota_api.Prelude.{
  ◌<◌, ◌≡◌, refl, ap, ◌↔◌, inl, inr, Bool, true, [], ◌∷◌, arith, ◌==◌, length, Bool-cases,
}
use mathlib.Core.Path.{ap₂}
use esp32s3_ota_api.Prelude.CString.{CString, tolower, strncasecmp, is_zero, BeginsWith}

-- The bytes of a C string are not zero.
abbrev pub NonZero : CString → Type 0
NonZero [] = Unit
NonZero (c ∷ s) = (0 < c) × NonZero s

matches : CString → CString → Bool
matches s t = is_zero (strncasecmp s t (length t))

matches_sound : (s t : CString) → NonZero t → matches s t ≡ true → BeginsWith s t
unfolding matches strncasecmp
matches_sound s [] ok h = ([], s, refl, refl)
matches_sound [] (b ∷ t) ok h = absurd (ground arith)
matches_sound (a ∷ s) (b ∷ t) ok h = elim (Bool-cases (tolower a == tolower b)) [
  | inl same ↦
      let (p, rest, split, alike) = matches_sound s t ok.1 (rw same at h) in
      (a ∷ p, rest, ap (◌∷◌ a) split, ap₂ ◌∷◌ (ground arith) alike)
  | inr differ ↦ absurd (ground arith)
]

matches_complete : (s t : CString) → BeginsWith s t → matches s t ≡ true
unfolding matches strncasecmp
matches_complete s [] h = refl
matches_complete s (b ∷ t) ([], rest, split, alike) = absurd (ground arith)
matches_complete [] (b ∷ t) (a ∷ p, rest, split, alike) = absurd (ground arith)
matches_complete (c ∷ s) (b ∷ t) (a ∷ p, rest, split, alike) =
    ground (arith, matches_complete s t (p, rest, cc, cc))

-- Over a text of bytes that are not zero, `strncasecmp(s, t, strlen(t)) == 0` says just that `s`
-- begins with `t`, upper and lower case alike.
pub strncasecmp-BeginsWith :
    (s t : CString) → NonZero t → (is_zero (strncasecmp s t (length t)) ≡ true) ↔ BeginsWith s t
unfolding matches
strncasecmp-BeginsWith s t ok = (matches_sound s t ok, matches_complete s t)
