-- ===== src/Auth/Tests.antt =====
-- internal/auth/verifier.go: the theorems at a token that the verifier accepts.
use noapp.Prelude.{
  String, ◌≡◌, ◌↔◌, ◌⊎◌, refl, true, some, List, [], ◌∷◌, pos, In, strip_prefix, trim_space,
  split_at, ◌+ℤ◌,
}
use noapp.Json.{str, as_strings, key_is, as_string, as_int64}
use noapp.Runtime.{ok}
use noapp.Auth.{Principal, as_header, as_claims, has_audience}
use noapp.Auth.Keys.{key, lookup_key}
use noapp.Auth.Verify.{claims_rejected, verify}
use noapp.Auth.Audience.{has_audience_iff}
use noapp.Fixtures.{audience_json, token_calls, verifier}
use noapp.Auth.Sound.{Accepted, verify-Accepted}

abbrev ada : Principal
ada = record {
  subject = "ada";
  username = "ada";
  roles = "noapp-editor" ∷ "noapp-viewer" ∷ [];
  expires_at = pos 100;
}

verify_sample : verify token_calls "Bearer h.c.s" verifier ≡ (verifier, ok ada)
unfolding verify strip_prefix trim_space split_at as_header key_is as_string as_claims as_int64
    as_strings key lookup_key ◌+ℤ◌ claims_rejected has_audience
verify_sample = refl

verify-Accepted_example : Accepted token_calls "Bearer h.c.s" verifier verifier ada
verify-Accepted_example =
    verify-Accepted token_calls "Bearer h.c.s" verifier verifier ada verify_sample

has_audience_iff_example : (has_audience (some audience_json) "api" ≡ true) ↔ (
    (audience_json ≡ str "api")
    ⊎ ((names : List String) × (as_strings audience_json ≡ some names) × In "api" names))
has_audience_iff_example = has_audience_iff audience_json "api" (λ e. cc)
