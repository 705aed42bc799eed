-- ===== src/Auth/Audience.antt =====
-- internal/auth/verifier.go: `hasAudience` decides membership.
use noapp.Prelude.{
  String, ◌≡◌, ◌≢◌, ◌↔◌, ◌⊎◌, refl, Bool, true, none, some, List, [], In, inl, inr, arith, eq_iff,
  has_text_iff, ℤ, Option-cases,
}
use noapp.Json.{Json, null, bool, int, real, str, arr, obj, as_string, as_strings, Fields}
use noapp.Auth.{has_audience}

no_names :
    (expected : String) (names : List String) → as_strings null ≡ some names → ¬ In expected names
unfolding as_strings
no_names expected names e i = let same : names ≡ [] = ground arith in rw same at i

not-as_strings_str : (s : String) (names : List String) → as_strings (str s) ≢ some names
unfolding as_strings
not-as_strings_str s names e = cc

no_bool : (b : Bool) → as_strings (bool b) ≡ none
unfolding as_strings
no_bool b = refl

no_int : (n : ℤ) → as_strings (int n) ≡ none
unfolding as_strings
no_int n = refl

no_real : (t : String) → as_strings (real t) ≡ none
unfolding as_strings
no_real t = refl

no_obj : (fs : Fields) → as_strings (obj fs) ≡ none
unfolding as_strings
no_obj fs = refl

-- A value that is neither a text nor an array.
neither :
    (raw : Json) (expected : String)
    → raw ≢ str expected
    → as_string raw "" ≡ none
    → as_strings raw ≡ none
    → (has_audience (some raw) expected ≡ true) ↔ (
        (raw ≡ str expected)
        ⊎ ((names : List String) × (as_strings raw ≡ some names) × In expected names))
unfolding has_audience
neither raw expected no_text no_single no_strings = (
  λ e. absurd (ground arith),
  λ m. elim m [ inl e ↦ absurd (no_text e) | inr (names, e, i) ↦ absurd (ground arith) ],
)

-- A raw audience names an expected one, which is not empty, exactly when it is that text or an array
-- of texts with that text in it.
pub has_audience_iff :
    (raw : Json) (expected : String)
    → expected ≢ ""
    → (has_audience (some raw) expected ≡ true) ↔ (
        (raw ≡ str expected)
        ⊎ ((names : List String) × (as_strings raw ≡ some names) × In expected names))
unfolding has_audience as_string
has_audience_iff null expected h = (
  λ e. absurd (ground (arith, eq_iff "" expected)),
  λ m. elim m [ inl e ↦ absurd (cc) | inr (names, e, i) ↦ absurd (no_names expected names e i) ],
)
has_audience_iff (str s) expected h = (
  λ e. inl (ground (arith, eq_iff s expected)),
  λ m. elim m [
    | inl e ↦ ground (arith, eq_iff s expected)
    | inr (names, e, i) ↦ absurd (not-as_strings_str s names e)
  ],
)
has_audience_iff (arr vs) expected h = elim (Option-cases (as_strings (arr vs))) [
  | inl bad ↦ (
    λ e. absurd (ground arith),
    λ m. elim m [ inl e ↦ absurd (cc) | inr (names, e, i) ↦ absurd (ground arith) ],
  )
  | inr (all, good) ↦ (
    λ e. inr (all, good, (has_text_iff expected all).0 (ground arith)),
    λ m. elim m [
      | inl e ↦ absurd (cc)
      | inr (names, e, i) ↦
          let same : names ≡ all = ground arith in
          rw (good, has_audience) ((has_text_iff expected all).1 (rw same at i))
    ],
  )
]
has_audience_iff (bool b) expected h = neither (bool b) expected (λ e. cc) refl (no_bool b)
has_audience_iff (int n) expected h = neither (int n) expected (λ e. cc) refl (no_int n)
has_audience_iff (real t) expected h = neither (real t) expected (λ e. cc) refl (no_real t)
has_audience_iff (obj fs) expected h = neither (obj fs) expected (λ e. cc) refl (no_obj fs)
