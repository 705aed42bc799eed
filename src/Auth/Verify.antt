-- ===== src/Auth/Verify.antt =====
-- internal/auth/verifier.go: `Verify`.
use noapp.Prelude.{
  ℕ, String, Bool, ◌&&◌, ◌||◌, not, Option, none, some, List, [], ◌∷◌, ℤ, pos, str_eq, leb_ℤ, ltb_ℤ,
  eq_ℤ, strip_prefix, trim_space, split_at, if◌then◌else◌,
}
use Prim.Native.String
use noapp.Json.{Json}
use noapp.Runtime.{missing_token, invalid_token, signing_key, Result, ok, err}
use noapp.Auth.{
  Config, Principal, PublicKey, Verifier, Header, AccessClaims, as_header, as_claims, has_audience,
}
use noapp.Auth.Keys.{Response, key}

-- The libraries, the answer of the JWKS endpoint, and the clock's readings: `now` and `fetched_at` in
-- nanoseconds, `seconds` for time.Now().Unix(). `signed_by` stands for SHA-256 of the text followed
-- by VerifyPKCS1v15.
pub record Calls : Type 0 where
  pub decode_base64 : String → Option (List ℕ)
  pub unmarshal : List ℕ → Option Json
  pub signed_by : PublicKey → String → List ℕ → Bool
  pub answer : Response
  pub now : ℤ
  pub fetched_at : ℤ
  pub seconds : ℤ

-- decodeSegment
abbrev pub segment {ℓ} : {A : Type ℓ} → Calls → (Json → Option A) → String → Option A
segment calls read text = elim (calls.decode_base64 text) [
  | none ↦ none
  | some payload ↦ elim (calls.unmarshal payload) [ none ↦ none | some value ↦ read value ]
]

-- The test on the claims, negated as the code writes it.
unfoldable pub claims_rejected : Config → ℤ → AccessClaims → Bool
claims_rejected config seconds c =
    not (str_eq c.issuer config.issuer)
    || (str_eq c.subject ""
        || (leb_ℤ c.expires_at seconds
            || (not (eq_ℤ c.not_before (pos 0)) && ltb_ℤ seconds c.not_before
                || not (has_audience c.audience config.audience))))

abbrev pub principal_of : AccessClaims → Principal
principal_of c = record {
  subject = c.subject;
  username = c.preferred_username;
  roles = c.roles;
  expires_at = c.expires_at;
}

module _ (calls : Calls) where
  -- From the signature check on, with the key at hand.
  unfoldable pub check_claims :
      String → List ℕ → AccessClaims → Verifier × Result PublicKey → Verifier × Result Principal
  check_claims text signature c (v, err e) = (v, err (signing_key e))
  check_claims text signature c (v, ok k) =
      if calls.signed_by k text signature
      then if claims_rejected v.config calls.seconds c
        then (v, err invalid_token)
        else (v, ok (principal_of c))
      else (v, err invalid_token)

  abbrev pub header_ok : Header → Bool
  header_ok h = str_eq h.algorithm "RS256" && not (str_eq h.kid "")

  abbrev pub signed_text : String → String → String
  signed_text a b = String.◌++◌ a (String.◌++◌ "." b)

  unfoldable pub check_parts : String → String → String → Verifier → Verifier × Result Principal
  check_parts a b s v = elim (segment calls as_header a) [
    | none ↦ (v, err invalid_token)
    | some h ↦
        if header_ok h
        then elim (segment calls as_claims b) [
          | none ↦ (v, err invalid_token)
          | some c ↦ elim (calls.decode_base64 s) [
            | none ↦ (v, err invalid_token)
            | some signature ↦
                check_claims (signed_text a b) signature c
                  (key calls.decode_base64 calls.answer calls.now calls.fetched_at h.kid v)
          ]
        ]
        else (v, err invalid_token)
  ]

  unfoldable pub check_split : List String → Verifier → Verifier × Result Principal
  check_split (a ∷ b ∷ s ∷ []) v = check_parts a b s v
  check_split _ v = (v, err invalid_token)

  abbrev pub check_token : String → Verifier → Verifier × Result Principal
  check_token token v =
      if str_eq token "" then (v, err missing_token) else check_split (split_at b'.' token) v

  unfoldable pub verify : String → Verifier → Verifier × Result Principal
  unfolding check_split check_parts check_claims
  verify authorization v = elim (strip_prefix "Bearer " authorization) [
    | none ↦ (v, err missing_token)
    | some rest ↦ check_token (trim_space rest) v
  ]
