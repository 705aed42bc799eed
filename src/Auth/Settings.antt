-- ===== src/Auth/Settings.antt =====
-- internal/auth/verifier.go: no call of the verifier changes its configuration.
use noapp.Prelude.{
  String, ◌≡◌, refl, ap, ◌∙◌, Option, List, [], ◌∷◌, ℤ, inl, inr, Bool-cases, Option-cases, str_eq,
  strip_prefix, trim_space, split_at, ℕ,
}
use noapp.Runtime.{Result, ok, err}
use noapp.Auth.{PublicKey, Verifier, AccessClaims, as_header, as_claims}
use noapp.Auth.Keys.{Response, refresh, lookup_key, is_fresh, after_refresh, fetch_key, key}
use noapp.Auth.KeyLaws.{Refreshed, failed, replaced, refresh-Refreshed}
use noapp.Auth.Verify.{
  Calls, segment, claims_rejected, check_claims, header_ok, check_parts, check_split, check_token,
  verify,
}

module _ (decode_base64 : String → Option (List ℕ)) where
  Refreshed-config :
      (answer : Response) (v : Verifier) (now : ℤ) (r : Verifier × Result (Unit {0}))
      → Refreshed decode_base64 answer v now r
      → r.0.config ≡ v.config
  Refreshed-config answer v now r (failed e) = refl
  Refreshed-config answer v now r (replaced jwks g) = refl

  after_refresh-config :
      (kid : String) (v : Verifier) (r : Result (Unit {0}))
      → (after_refresh decode_base64 kid v r).0.config ≡ v.config
  unfolding after_refresh
  after_refresh-config kid v (err e) = refl
  after_refresh-config kid v (ok done) = elim (Option-cases (lookup_key decode_base64 kid v.keys)) [
    | inl e ↦ rw (e, after_refresh) refl
    | inr (k, e) ↦ rw (e, after_refresh) refl
  ]

  fetch_key-config :
      (answer : Response) (fetched_at : ℤ) (kid : String) (v : Verifier)
      → (fetch_key decode_base64 answer fetched_at kid v).0.config ≡ v.config
  fetch_key-config answer fetched_at kid v =
      let r = refresh decode_base64 answer fetched_at v in
      after_refresh-config kid r.0 r.1
      ∙ Refreshed-config answer v fetched_at r (refresh-Refreshed decode_base64 answer fetched_at v)

  key-config :
      (answer : Response) (now fetched_at : ℤ) (kid : String) (v : Verifier)
      → (key decode_base64 answer now fetched_at kid v).0.config ≡ v.config
  unfolding key
  key-config answer now fetched_at kid v =
      elim (Option-cases (lookup_key decode_base64 kid v.keys)) [
        | inl e ↦ rw (e, key) (fetch_key-config answer fetched_at kid v)
        | inr (k, e) ↦ elim (Bool-cases (is_fresh decode_base64 now v)) [
          | inl young ↦ rw (e, key, young) refl
          | inr old ↦ rw (e, key, old) (fetch_key-config answer fetched_at kid v)
        ]
      ]

module _ (calls : Calls) where
  check_claims-verifier :
      (text : String) (signature : List ℕ) (c : AccessClaims) (r : Verifier × Result PublicKey)
      → (check_claims calls text signature c r).0 ≡ r.0
  unfolding check_claims
  check_claims-verifier text signature c (v, err e) = refl
  check_claims-verifier text signature c (v, ok k) =
      elim (Bool-cases (calls.signed_by k text signature)) [
        | inr bad ↦ rw bad refl
        | inl good ↦ elim (Bool-cases (claims_rejected v.config calls.seconds c)) [
          | inl bad ↦ rw (good, bad) refl
          | inr kept ↦ rw (good, kept) refl
        ]
      ]

  check_parts-config :
      (a b s : String) (v : Verifier) → (check_parts calls a b s v).0.config ≡ v.config
  unfolding check_parts
  check_parts-config a b s v = elim (Option-cases (segment calls as_header a)) [
    | inl e ↦ rw (e, check_parts) refl
    | inr (h, hr) ↦ elim (Bool-cases (header_ok calls h)) [
      | inr bad ↦ rw (hr, check_parts, bad) refl
      | inl good ↦ elim (Option-cases (segment calls as_claims b)) [
        | inl e ↦ rw (hr, check_parts, good, e) refl
        | inr (c, cr) ↦ elim (Option-cases (calls.decode_base64 s)) [
          | inl e ↦ rw (hr, check_parts, good, cr, e) refl
          | inr (signature, sr) ↦
              rw (hr, check_parts, good, cr, sr)
                (ap (λ w. w.config) (check_claims-verifier _ signature c _)
                  ∙ key-config calls.decode_base64 calls.answer calls.now calls.fetched_at h.kid v)
        ]
      ]
    ]
  ]

  check_split-config :
      (ps : List String) (v : Verifier) → (check_split calls ps v).0.config ≡ v.config
  unfolding check_split
  check_split-config [] v = refl
  check_split-config (a ∷ []) v = refl
  check_split-config (a ∷ b ∷ []) v = refl
  check_split-config (a ∷ b ∷ s ∷ []) v = check_parts-config a b s v
  check_split-config (a ∷ b ∷ s ∷ t ∷ ps) v = refl

  check_token-config :
      (token : String) (v : Verifier) → (check_token calls token v).0.config ≡ v.config
  check_token-config token v = elim (Bool-cases (str_eq token "")) [
    | inl empty ↦ rw empty refl
    | inr more ↦ rw more (check_split-config (split_at b'.' token) v)
  ]

  pub verify-config :
      (authorization : String) (v : Verifier) → (verify calls authorization v).0.config ≡ v.config
  unfolding verify
  verify-config authorization v = elim (Option-cases (strip_prefix "Bearer " authorization)) [
    | inl e ↦ rw (e, verify) refl
    | inr (rest, e) ↦ rw (e, verify) (check_token-config (trim_space rest) v)
  ]
