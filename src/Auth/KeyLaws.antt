-- ===== src/Auth/KeyLaws.antt =====
-- internal/auth/verifier.go: where a key comes from, and how old it may be.
use noapp.Prelude.{
  ℕ, String, ◌≡◌, refl, ◌⊎◌, inl, inr, true, Option, none, some, List, [], ◌∷◌, In, ℤ, pos, ◌<ℤ◌,
  ◌+ℤ◌, arith, eq_iff, Option-cases, Bool-cases, str_eq, ◌==◌, ==_iff,
}
use mathlib.Core.Path.{subst}
use noapp.Json.{Json}
use noapp.Runtime.{Error, Result, ok, err, decode_keys}
use noapp.Auth.{PublicKey, Verifier}
use noapp.Auth.Keys.{
  Jwk, is_signing, key_of, add_keys, Response, no_response, response, refresh, lookup_key, is_fresh,
  after_refresh, key, as_document, found_keys,
}

-- The endpoint has answered with the status 200 and a document with these keys.
abbrev pub Gives : Response → List Jwk → Type 0
Gives answer jwks =
    (body : Json) × (answer ≡ response 200 (some body)) × (as_document body ≡ some jwks)

module _ (decode_base64 : String → Option (List ℕ)) where
  -- What a refresh does: it fails and leaves the verifier alone, or it replaces all keys at once by
  -- those of the document that the endpoint has answered with.
  pub data Refreshed (answer : Response) (v : Verifier) (now : ℤ)
      : Verifier × Result (Unit {0}) → Type 0 where
    failed : (e : Error) → Refreshed answer v now (v, err e)
    replaced :
        (jwks : List Jwk)
        → Gives answer jwks
        → Refreshed answer v now
            (record v { keys = add_keys decode_base64 jwks []; fetched = now }, ok tt)

  found-Refreshed :
      (answer : Response) (v : Verifier) (now : ℤ) (jwks : List Jwk)
      (keys : List (String × PublicKey))
      → Gives answer jwks
      → add_keys decode_base64 jwks [] ≡ keys
      → Refreshed answer v now (found_keys decode_base64 v now keys)
  found-Refreshed answer v now jwks [] g e = failed _
  found-Refreshed answer v now jwks (k ∷ ks) g e =
      subst (λ x. Refreshed answer v now (record v { keys = x; fetched = now }, ok tt)) e
        (replaced jwks g)

  document-Refreshed :
      (answer : Response) (v : Verifier) (now : ℤ) (body : Json) (document : Option (List Jwk))
      → answer ≡ response 200 (some body)
      → as_document body ≡ document
      → Refreshed answer v now (elim document [
        | none ↦ (v, err decode_keys)
        | some jwks ↦ found_keys decode_base64 v now (add_keys decode_base64 jwks [])
      ])
  document-Refreshed answer v now body none a e = failed _
  document-Refreshed answer v now body (some jwks) a e =
      found-Refreshed answer v now jwks _ (body, a, e) refl

  pub refresh-Refreshed :
      (answer : Response) (now : ℤ) (v : Verifier)
      → Refreshed answer v now (refresh decode_base64 answer now v)
  unfolding refresh
  refresh-Refreshed (no_response text) now v = failed _
  refresh-Refreshed (response status body) now v = elim (Bool-cases (status == 200)) [
    | inr other ↦ rw other (failed _)
    | inl good ↦ rw good (go ((==_iff status 200).0 good) body refl)
  ]
    where
      go :
          status ≡ 200
          → (b : Option Json) → body ≡ b
          → Refreshed (response status body) v now (elim b [
            | none ↦ (v, err decode_keys)
            | some document ↦ elim (as_document document) [
              | none ↦ (v, err decode_keys)
              | some jwks ↦ found_keys decode_base64 v now (add_keys decode_base64 jwks [])
            ]
          ])
      go same none e = failed _
      go same (some document) e =
          document-Refreshed (response status body) v now document (as_document document) (cc) refl

  -- Where a key of a refreshed cache comes from.
  abbrev pub IsKeyOf : List Jwk → String → PublicKey → Type 0
  IsKeyOf jwks kid k =
      (j : Jwk) × In j jwks
      × (j.kid ≡ kid)
      × (is_signing j ≡ true)
      × (key_of decode_base64 j ≡ some k)

  key_of-is_signing :
      (j : Jwk) (k : PublicKey) → key_of decode_base64 j ≡ some k → is_signing j ≡ true
  unfolding key_of
  key_of-is_signing j k h = elim (Bool-cases (is_signing j)) [
    | inl e ↦ e
    | inr e ↦ absurd (ground arith)
  ]

  lookup-add_keys :
      (jwks : List Jwk) (keys : List (String × PublicKey)) (kid : String) (k : PublicKey)
      → lookup_key decode_base64 kid (add_keys decode_base64 jwks keys) ≡ some k
      → IsKeyOf jwks kid k ⊎ (lookup_key decode_base64 kid keys ≡ some k)
  unfolding add_keys lookup_key
  lookup-add_keys [] keys kid k h = inr h
  lookup-add_keys (j ∷ js) keys kid k h = elim (Option-cases (key_of decode_base64 j)) [
    | inl e ↦ later (lookup-add_keys js keys kid k (rw e at h))
    | inr (l, e) ↦ here l e (lookup-add_keys js ((j.kid, l) ∷ keys) kid k (rw e at h))
  ]
    where
      later :
          IsKeyOf js kid k ⊎ (lookup_key decode_base64 kid keys ≡ some k)
          → IsKeyOf (j ∷ js) kid k ⊎ (lookup_key decode_base64 kid keys ≡ some k)
      later (inl (i, at, n, g, e)) = inl (i, inr at, n, g, e)
      later (inr e) = inr e

      here :
          (l : PublicKey)
          → key_of decode_base64 j ≡ some l
          → IsKeyOf js kid k ⊎ (lookup_key decode_base64 kid ((j.kid, l) ∷ keys) ≡ some k)
          → IsKeyOf (j ∷ js) kid k ⊎ (lookup_key decode_base64 kid keys ≡ some k)
      here l e (inl (i, at, n, g, o)) = inl (i, inr at, n, g, o)
      here l e (inr found) = elim (Bool-cases (str_eq j.kid kid)) [
        | inl same ↦
            inl (j, inl refl, (eq_iff j.kid kid).0 same, key_of-is_signing j l e, ground arith)
        | inr other ↦ inr (ground arith)
      ]

  -- What a successful look for a key says of the verifier `w` that it leaves.
  pub record Found (answer : Response) (v w : Verifier) (now fetched_at : ℤ) (kid : String)
      (k : PublicKey) : Type 0 where
    pub cached : lookup_key decode_base64 kid w.keys ≡ some k
    pub settings : w.config ≡ v.config
    pub age :
        ((w ≡ v) × (now <ℤ v.fetched +ℤ pos 300000000000))
        ⊎ ((w.fetched ≡ fetched_at)
            × ((jwks : List Jwk) × Gives answer jwks
                × (w.keys ≡ add_keys decode_base64 jwks [])
                × IsKeyOf jwks kid k))

  fetched-Found :
      (answer : Response) (v w : Verifier) (now fetched_at : ℤ) (kid : String) (k : PublicKey)
      (r : Verifier × Result (Unit {0}))
      → Refreshed answer v fetched_at r
      → after_refresh decode_base64 kid r.0 r.1 ≡ (w, ok k)
      → Found answer v w now fetched_at kid k
  unfolding after_refresh lookup_key
  fetched-Found answer v w now fetched_at kid k r (failed e) h = absurd (ground arith)
  fetched-Found answer v w now fetched_at kid k r (replaced jwks g) h =
      elim (Option-cases (lookup_key decode_base64 kid (add_keys decode_base64 jwks []))) [
        | inl e ↦ absurd (ground arith)
        | inr (l, e) ↦
            let same : w
                ≡ record v { keys = add_keys decode_base64 jwks []; fetched = fetched_at } =
              ground arith in
            let own : l ≡ k = ground arith in
            elim (lookup-add_keys jwks [] kid k (ground arith)) [
              | inl origin ↦ record {
                cached = ground arith;
                settings = ground arith;
                age = inr (ground arith, (jwks, g, rw same refl, origin));
              }
              | inr nothing ↦ absurd (ground arith)
            ]
      ]

  pub key-Found :
      (answer : Response) (now fetched_at : ℤ) (kid : String) (v w : Verifier) (k : PublicKey)
      → key decode_base64 answer now fetched_at kid v ≡ (w, ok k)
      → Found answer v w now fetched_at kid k
  unfolding key
  key-Found answer now fetched_at kid v w k h =
      elim (Option-cases (lookup_key decode_base64 kid v.keys)) [
        | inl e ↦
            fetched-Found answer v w now fetched_at kid k _ (refresh-Refreshed answer fetched_at v)
              (rw (e, key) at h)
        | inr (l, e) ↦ elim (Bool-cases (is_fresh decode_base64 now v)) [
          | inl young ↦ record {
            cached = ground arith;
            settings = ground arith;
            age = inl (ground arith, ground arith);
          }
          | inr old ↦
              fetched-Found answer v w now fetched_at kid k _
                (refresh-Refreshed answer fetched_at v) (ground arith)
        ]
      ]
