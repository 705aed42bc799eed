-- ===== src/Auth/Keys.antt =====
-- internal/auth/verifier.go: `key` and `refresh`, the cache of the signing keys.
use mathlib.Core.Option
use noapp.Prelude.{
  ℕ, ◌+◌, ◌-◌, ◌*◌, ◌%◌, ◌^◌, String, Bool, ◌&&◌, ◌||◌, not, Option, none, some, List, [], ◌∷◌, ℤ,
  pos, negsuc, str_eq, ltb_ℤ, ◌+ℤ◌, ltb, ◌==◌, if◌then◌else◌,
}
use noapp.Json.{Json, null, arr, obj, Items, nil, cons, Fields, end, field, key_is, as_string}
use noapp.Runtime.{
  fetch_keys, unexpected_status, decode_keys, no_rsa_keys, no_signing_key, Result, ok, err,
}
use noapp.Auth.{PublicKey, Verifier}

pub record Jwk : Type 0 where
  pub kid : String
  pub kty : String
  pub purpose : String
  pub n : String
  pub e : String

abbrev zero_jwk : Jwk
zero_jwk = record { kid = ""; kty = ""; purpose = ""; n = ""; e = "" }

infixl 5 ◌>>=◌
abbrev ◌>>=◌ {ℓ κ} : {A : Type ℓ} {B : Type κ} → Option A → (A → Option B) → Option B
none >>= f = none
some a >>= f = f a

set_jwk_field : String → Json → Jwk → Option Jwk
set_jwk_field k v j =
    if key_is "kid" k
    then Option.map (λ x. record j { kid = x }) (as_string v j.kid)
    else if key_is "kty" k
    then Option.map (λ x. record j { kty = x }) (as_string v j.kty)
    else if key_is "use" k
    then Option.map (λ x. record j { purpose = x }) (as_string v j.purpose)
    else if key_is "n" k
    then Option.map (λ x. record j { n = x }) (as_string v j.n)
    else if key_is "e" k
    then Option.map (λ x. record j { e = x }) (as_string v j.e)
    else some j

set_jwk_fields : Fields → Jwk → Option Jwk
set_jwk_fields end j = some j
set_jwk_fields (field k v fs) j = do j' ← set_jwk_field k v j; set_jwk_fields fs j'

as_jwk : Json → Option Jwk
unfolding set_jwk_fields set_jwk_field
as_jwk null = some zero_jwk
as_jwk (obj fs) = set_jwk_fields fs zero_jwk
as_jwk _ = none

as_jwks : Items → Option (List Jwk)
as_jwks nil = some []
as_jwks (cons v vs) = do j ← as_jwk v; js ← as_jwks vs; some (j ∷ js)

as_jwk_array : Json → Option (List Jwk)
unfolding as_jwks as_jwk
as_jwk_array null = some []
as_jwk_array (arr vs) = as_jwks vs
as_jwk_array _ = none

set_keys : Fields → List Jwk → Option (List Jwk)
set_keys end js = some js
set_keys (field k v fs) js = do
  js' ← if key_is "keys" k then as_jwk_array v else some js
  set_keys fs js'

-- The document of the JWKS endpoint.
unfoldable pub as_document : Json → Option (List Jwk)
unfolding set_keys as_jwk_array
as_document null = some []
as_document (obj fs) = set_keys fs []
as_document _ = none

-- big.Int's SetBytes, and its Int64, which keeps the low 64 bits.
abbrev big_endian : ℕ → List ℕ → ℕ
big_endian acc [] = acc
big_endian acc (b ∷ bs) = big_endian (acc * 256 + b) bs

abbrev low_int64 : ℕ → ℤ
low_int64 n =
    let low = n % 2 ^ 64 in if ltb low (2 ^ 63) then pos low else negsuc (2 ^ 64 - low - 1)

-- What a request for the keys comes back with: no answer, or a status with the body's JSON value, if
-- it is JSON.
pub data Response : Type 0 where
  no_response : String → Response
  response : ℕ → Option Json → Response

abbrev pub is_signing : Jwk → Bool
is_signing j =
    not (str_eq j.kid "") && str_eq j.kty "RSA" && (str_eq j.purpose "" || str_eq j.purpose "sig")

module _ (decode_base64 : String → Option (List ℕ)) where
  -- The key of one entry; an entry that is no RSA signing key is passed over.
  unfoldable pub key_of : Jwk → Option PublicKey
  key_of j =
      if is_signing j
      then elim (decode_base64 j.n) [
        | none ↦ none
        | some modulus ↦ elim (decode_base64 j.e) [
          | none ↦ none
          | some [] ↦ none
          | some (b ∷ bs) ↦ some (record {
            modulus = big_endian 0 modulus;
            exponent = low_int64 (big_endian 0 (b ∷ bs));
          })
        ]
      ]
      else none

  -- The loop over the document's entries; a later entry hides an earlier one of the same name.
  unfoldable pub add_keys : List Jwk → List (String × PublicKey) → List (String × PublicKey)
  add_keys [] keys = keys
  add_keys (j ∷ js) keys =
      add_keys js (elim (key_of j) [ none ↦ keys | some k ↦ (j.kid, k) ∷ keys ])

  abbrev pub found_keys : Verifier → ℤ → List (String × PublicKey) → Verifier × Result (Unit {0})
  found_keys v now [] = (v, err no_rsa_keys)
  found_keys v now (k ∷ ks) = (record v { keys = k ∷ ks; fetched = now }, ok tt)

  unfoldable pub refresh : Response → ℤ → Verifier → Verifier × Result (Unit {0})
  refresh (no_response text) now v = (v, err (fetch_keys text))
  refresh (response status body) now v =
      if status == 200
      then elim body [
        | none ↦ (v, err decode_keys)
        | some document ↦ elim (as_document document) [
          | none ↦ (v, err decode_keys)
          | some jwks ↦ found_keys v now (add_keys jwks [])
        ]
      ]
      else (v, err (unexpected_status status))

  unfoldable pub lookup_key : String → List (String × PublicKey) → Option PublicKey
  lookup_key kid [] = none
  lookup_key kid ((name, k) ∷ keys) = if str_eq name kid then some k else lookup_key kid keys

  -- time.Since(v.fetched) < 5*time.Minute
  abbrev pub is_fresh : ℤ → Verifier → Bool
  is_fresh now v = ltb_ℤ now (v.fetched +ℤ pos 300000000000)

  unfoldable pub after_refresh : String → Verifier → Result (Unit {0}) → Verifier × Result PublicKey
  after_refresh kid v (err e) = (v, err e)
  after_refresh kid v (ok done) = elim (lookup_key kid v.keys) [
    | none ↦ (v, err (no_signing_key kid))
    | some k ↦ (v, ok k)
  ]

  abbrev pub fetch_key : Response → ℤ → String → Verifier → Verifier × Result PublicKey
  fetch_key answer fetched_at kid v =
      let (v', result) = refresh answer fetched_at v in after_refresh kid v' result

  -- `now` is when the cache is looked at, `fetched_at` when a refresh has ended.
  unfoldable pub key : Response → ℤ → ℤ → String → Verifier → Verifier × Result PublicKey
  unfolding after_refresh
  key answer now fetched_at kid v = elim (lookup_key kid v.keys) [
    | none ↦ fetch_key answer fetched_at kid v
    | some k ↦ if is_fresh now v then (v, ok k) else fetch_key answer fetched_at kid v
  ]
