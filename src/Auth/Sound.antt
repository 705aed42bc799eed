-- ===== src/Auth/Sound.antt =====
-- internal/auth/verifier.go: what an accepted token guarantees.
use noapp.Prelude.{
  Option, none, ℕ, String, ◌≡◌, ◌≢◌, refl, ◌⊎◌, inl, inr, true, false, some, List, [], ◌∷◌, ℤ, pos,
  ◌<ℤ◌, ◌≤ℤ◌, arith, eq_iff, eq_ℤ_iff, Option-cases, Bool-cases, str_eq, strip_prefix, trim_space,
  split_at,
}
use noapp.Runtime.{Result, ok, err}
use noapp.Auth.{
  Config, Principal, PublicKey, Verifier, Header, AccessClaims, as_header, as_claims, has_audience,
}
use noapp.Auth.Keys.{key}
use noapp.Auth.KeyLaws.{Found, key-Found}
use noapp.Auth.Verify.{
  Calls, segment, claims_rejected, principal_of, check_claims, signed_text, check_parts,
  check_split, verify, header_ok,
}

-- The claims that the configuration admits at a time.
pub record Admitted (config : Config) (seconds : ℤ) (c : AccessClaims) : Type 0 where
  pub issuer : c.issuer ≡ config.issuer
  pub subject : c.subject ≢ ""
  pub unexpired : seconds <ℤ c.expires_at
  pub started : (c.not_before ≡ pos 0) ⊎ (c.not_before ≤ℤ seconds)
  pub audience : has_audience c.audience config.audience ≡ true

not_rejected-Admitted :
    (config : Config) (seconds : ℤ) (c : AccessClaims)
    → claims_rejected config seconds c ≡ false
    → Admitted config seconds c
unfolding claims_rejected
not_rejected-Admitted config seconds c h = record {
  issuer = ground (arith, eq_iff c.issuer config.issuer);
  subject = ground (arith, eq_iff c.subject "");
  unexpired = ground arith;
  started = ground (arith, eq_ℤ_iff c.not_before (pos 0));
  audience = ground arith;
}

-- What stands behind an accepted token: its three parts, the key that signed it, and the claims that
-- the principal is made of.
pub record Accepted (calls : Calls) (authorization : String) (v w : Verifier) (p : Principal)
    : Type 0 where
  pub token : String
  pub bearer : strip_prefix "Bearer " authorization ≡ some token
  pub header_part : String
  pub claims_part : String
  pub signature_part : String
  pub parts : split_at b'.' (trim_space token) ≡ header_part ∷ claims_part ∷ signature_part ∷ []
  pub header : Header
  pub header_read : segment calls as_header header_part ≡ some header
  pub algorithm : header.algorithm ≡ "RS256"
  pub claims : AccessClaims
  pub claims_read : segment calls as_claims claims_part ≡ some claims
  pub signature : List ℕ
  pub signature_read : calls.decode_base64 signature_part ≡ some signature
  pub public_key : PublicKey
  pub found :
      Found calls.decode_base64 calls.answer v w calls.now calls.fetched_at header.kid public_key
  pub signed :
      calls.signed_by public_key (signed_text calls header_part claims_part) signature ≡ true
  pub admitted : Admitted v.config calls.seconds claims
  pub principal : p ≡ principal_of claims

check_claims-ok :
    (calls : Calls) (text : String) (signature : List ℕ) (c : AccessClaims)
    (r : Verifier × Result PublicKey) (w : Verifier) (p : Principal)
    → check_claims calls text signature c r ≡ (w, ok p)
    → (k : PublicKey) × (r ≡ (w, ok k))
      × (calls.signed_by k text signature ≡ true)
      × Admitted w.config calls.seconds c
      × (p ≡ principal_of c)
unfolding check_claims
check_claims-ok calls text signature c (v, err e) w p h = absurd (ground arith)
check_claims-ok calls text signature c (v, ok k) w p h =
    elim (Bool-cases (calls.signed_by k text signature)) [
      | inr bad ↦ absurd (ground arith)
      | inl good ↦ elim (Bool-cases (claims_rejected v.config calls.seconds c)) [
        | inl bad ↦ absurd (ground arith)
        | inr fine ↦
            let same : v ≡ w = ground arith in
            (
              k,
              rw same refl,
              good,
              not_rejected-Admitted w.config calls.seconds c (rw same at fine),
              ground arith,
            )
      ]
    ]

check_parts-ok :
    (calls : Calls) (authorization token a b s : String) (v w : Verifier) (p : Principal)
    → strip_prefix "Bearer " authorization ≡ some token
    → split_at b'.' (trim_space token) ≡ a ∷ b ∷ s ∷ []
    → check_parts calls a b s v ≡ (w, ok p)
    → Accepted calls authorization v w p
unfolding check_parts
check_parts-ok calls authorization token a b s v w p bearer parts h =
    elim (Option-cases (segment calls as_header a)) [
      | inl e ↦ absurd (ground arith)
      | inr (header, hr) ↦ elim (Bool-cases (header_ok calls header)) [
        | inr e ↦ absurd (ground arith)
        | inl good ↦ elim (Option-cases (segment calls as_claims b)) [
          | inl e ↦ absurd (ground arith)
          | inr (claims, cr) ↦ elim (Option-cases (calls.decode_base64 s)) [
            | inl e ↦ absurd (ground arith)
            | inr (signature, sr) ↦
                let (k, looked, signed, admitted, made) =
                  check_claims-ok calls (signed_text calls a b) signature claims
                    (key calls.decode_base64 calls.answer calls.now calls.fetched_at header.kid v) w
                    p (ground arith) in
                let found =
                  key-Found calls.decode_base64 calls.answer calls.now calls.fetched_at header.kid v
                    w k looked in
                record {
                  token = token;
                  bearer = bearer;
                  header_part = a;
                  claims_part = b;
                  signature_part = s;
                  parts = parts;
                  header = header;
                  header_read = hr;
                  algorithm = ground (arith, eq_iff header.algorithm "RS256");
                  claims = claims;
                  claims_read = cr;
                  signature = signature;
                  signature_read = sr;
                  public_key = k;
                  found = found;
                  signed = signed;
                  admitted = rw found.settings at admitted;
                  principal = made;
                }
          ]
        ]
      ]
    ]

check_split-ok :
    (calls : Calls) (authorization token : String) (ps : List String) (v w : Verifier)
    (p : Principal)
    → strip_prefix "Bearer " authorization ≡ some token
    → split_at b'.' (trim_space token) ≡ ps
    → check_split calls ps v ≡ (w, ok p)
    → Accepted calls authorization v w p
unfolding check_split
check_split-ok calls authorization token (a ∷ b ∷ s ∷ []) v w p bearer parts h =
    check_parts-ok calls authorization token a b s v w p bearer parts h
check_split-ok calls authorization token _ v w p bearer parts h = absurd (cc)

-- `verify` accepts a token only if it is a bearer token of three parts whose header names RS256 and
-- a key that the cache holds, that key signs the first two parts, and the claims name the issuer and
-- the audience, a subject, and a span of validity that the clock is in. The key is from a cache
-- of less than five minutes, or a signing key of the document that the key endpoint has answered
-- this call with, whose keys the cache then holds, and the principal has the subject,
-- the roles and the expiry of the claims.
pub verify-Accepted :
    (calls : Calls) (authorization : String) (v w : Verifier) (p : Principal)
    → verify calls authorization v ≡ (w, ok p)
    → Accepted calls authorization v w p
unfolding verify
verify-Accepted calls authorization v w p h =
    elim (Option-cases (strip_prefix "Bearer " authorization)) [
      | inl e ↦ absurd (ground arith)
      | inr (token, e) ↦ elim (Bool-cases (str_eq (trim_space token) "")) [
        | inl empty ↦ absurd (ground arith)
        | inr more ↦ check_split-ok calls authorization token _ v w p e refl (ground arith)
      ]
    ]

principal_if_ok : Result Principal → Option Principal
principal_if_ok (ok p) = some p
principal_if_ok (err e) = none

-- The principal that a header stands for, if the verifier accepts it.
unfoldable pub verified : Calls → Verifier → String → Option Principal
unfolding principal_if_ok
verified calls v authorization = principal_if_ok (verify calls authorization v).1

pub verified-ok :
    (calls : Calls) (v : Verifier) (authorization : String) (p : Principal)
    → verified calls v authorization ≡ some p
    → verify calls authorization v ≡ ((verify calls authorization v).0, ok p)
unfolding verified principal_if_ok
verified-ok calls v authorization p h = go (verify calls authorization v) h
  where
    go : (x : Verifier × Result Principal) → principal_if_ok x.1 ≡ some p → x ≡ (x.0, ok p)
    go (w, ok q) e = let same : q ≡ p = ground arith in rw same refl
    go (w, err e') e = absurd (cc)

pub verified-Accepted :
    (calls : Calls) (v : Verifier) (authorization : String) (p : Principal)
    → verified calls v authorization ≡ some p
    → Accepted calls authorization v (verify calls authorization v).0 p
verified-Accepted calls v authorization p h =
    verify-Accepted calls authorization v _ p (verified-ok calls v authorization p h)
