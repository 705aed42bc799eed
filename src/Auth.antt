-- ===== src/Auth.antt =====
-- internal/auth/verifier.go: the claims of an access token, the set of signing keys, and the
-- verifier's state. Base64, the text of JSON, SHA-256 with RSA, and the HTTP client are arguments.
pub mod Keys
pub mod Verify
pub mod Audience
pub mod KeyLaws
pub mod Settings
pub mod Sound
pub mod Tests
use mathlib.Core.Option
use noapp.Prelude.{
  ℕ, String, Bool, true, false, Option, none, some, List, [], ◌∷◌, ℤ, pos, str_eq, has_text, ◌||◌,
  if◌then◌else◌,
}
use noapp.Json.{
  Json, null, str, arr, obj, Fields, end, field, key_is, as_int64, as_string, as_strings,
}
use noapp.Runtime.{Result, ok, err, verifier_config, zero_time}

pub record Config : Type 0 where
  pub issuer : String
  pub jwks_url : String
  pub audience : String

-- The time of expiry is in seconds since the Unix epoch.
pub record Principal : Type 0 where
  pub subject : String
  pub username : String
  pub roles : List String
  pub expires_at : ℤ

unfoldable pub has_role : Principal → String → Bool
has_role p role = has_text role p.roles

-- rsa.PublicKey
pub record PublicKey : Type 0 where
  pub modulus : ℕ
  pub exponent : ℤ

-- The keys that were added last stand first.
pub record Verifier : Type 0 where
  pub config : Config
  pub keys : List (String × PublicKey)
  pub fetched : ℤ

unfoldable pub new_verifier : Config → Result Verifier
new_verifier c =
    if str_eq c.issuer "" || (str_eq c.jwks_url "" || str_eq c.audience "")
    then err verifier_config
    else ok (record { config = c; keys = []; fetched = zero_time })

pub record Header : Type 0 where
  pub algorithm : String
  pub kid : String

-- `audience` is the raw value, `none` if the key is missing.
pub record AccessClaims : Type 0 where
  pub issuer : String
  pub subject : String
  pub audience : Option Json
  pub expires_at : ℤ
  pub not_before : ℤ
  pub preferred_username : String
  pub roles : List String

infixl 5 ◌>>=◌
abbrev ◌>>=◌ {ℓ κ} : {A : Type ℓ} {B : Type κ} → Option A → (A → Option B) → Option B
none >>= f = none
some a >>= f = f a

set_header_field : String → Json → Header → Option Header
set_header_field k v h =
    if key_is "alg" k
    then Option.map (λ x. record h { algorithm = x }) (as_string v h.algorithm)
    else if key_is "kid" k
    then Option.map (λ x. record h { kid = x }) (as_string v h.kid)
    else some h

set_header_fields : Fields → Header → Option Header
set_header_fields end h = some h
set_header_fields (field k v fs) h = do h' ← set_header_field k v h; set_header_fields fs h'

-- json.Unmarshal into the struct of the header, from its zero value.
unfoldable pub as_header : Json → Option Header
unfolding set_header_fields set_header_field
as_header null = some (record { algorithm = ""; kid = "" })
as_header (obj fs) = set_header_fields fs (record { algorithm = ""; kid = "" })
as_header _ = none

-- The object under "realm_access", whose only field is "roles".
set_roles : Fields → List String → Option (List String)
set_roles end roles = some roles
set_roles (field k v fs) roles = do
  roles' ← if key_is "roles" k then as_strings v else some roles
  set_roles fs roles'

as_realm_access : Json → List String → Option (List String)
unfolding set_roles
as_realm_access null roles = some roles
as_realm_access (obj fs) roles = set_roles fs roles
as_realm_access _ roles = none

set_claim : String → Json → AccessClaims → Option AccessClaims
unfolding as_realm_access
set_claim k v c =
    if key_is "iss" k
    then Option.map (λ x. record c { issuer = x }) (as_string v c.issuer)
    else if key_is "sub" k
    then Option.map (λ x. record c { subject = x }) (as_string v c.subject)
    else if key_is "aud" k
    then some (record c { audience = some v })
    else if key_is "exp" k
    then Option.map (λ x. record c { expires_at = x }) (as_int64 v c.expires_at)
    else if key_is "nbf" k
    then Option.map (λ x. record c { not_before = x }) (as_int64 v c.not_before)
    else if key_is "preferred_username" k
    then Option.map (λ x. record c { preferred_username = x }) (as_string v c.preferred_username)
    else if key_is "realm_access" k
    then Option.map (λ x. record c { roles = x }) (as_realm_access v c.roles)
    else some c

set_claims : Fields → AccessClaims → Option AccessClaims
set_claims end c = some c
set_claims (field k v fs) c = do c' ← set_claim k v c; set_claims fs c'

abbrev no_claims : AccessClaims
no_claims = record {
  issuer = "";
  subject = "";
  audience = none;
  expires_at = pos 0;
  not_before = pos 0;
  preferred_username = "";
  roles = [];
}

unfoldable pub as_claims : Json → Option AccessClaims
unfolding set_claims set_claim
as_claims null = some no_claims
as_claims (obj fs) = set_claims fs no_claims
as_claims _ = none

-- A single text, or else an array of texts.
unfoldable pub has_audience : Option Json → String → Bool
has_audience none expected = false
has_audience (some raw) expected = elim (as_string raw "") [
  | some single ↦ str_eq single expected
  | none ↦ elim (as_strings raw) [ some multiple ↦ has_text expected multiple | none ↦ false ]
]
