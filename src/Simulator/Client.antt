-- ===== src/Simulator/Client.antt =====
-- internal/simulator/client.go: the client of the API, with the access token that it keeps. The
-- HTTP client, the text of JSON, and the check that http.NewRequestWithContext makes of a URL are
-- arguments. The lock makes accessToken one step.
pub mod Requests
pub mod Tokens
pub mod Routing
pub mod Arrivals
pub mod Tests
use mathlib.Core.Option
use Prim.Native.String.{◌++◌ as text_append}
use noapp.Prelude.{
  ℕ, ◌*◌, String, Bool, ◌&&◌, ◌||◌, not, Option, none, some, List, [], ◌∷◌, ◌++◌, ℤ, pos, ◌+ℤ◌,
  ltb_ℤ, scale, wrap_int64, ltb, leb, ◌==◌, str_eq, trim_space, trim_right_char, if◌then◌else◌,
}
use noapp.Json.{
  Json, null, obj, Fields, end, field, Payload, json, malformed, key_is, as_int64, as_string,
}
use noapp.Runtime.{
  Result, ok, err, zero_time, bad_request, no_response, no_access_token, returned, decode_response,
  decode_token_response, token_endpoint,
}

pub record OauthConfig : Type 0 where
  pub token_url : String
  pub client_id : String
  pub client_secret : String

pub record ApiClient : Type 0 where
  pub base_url : String
  pub oauth : OauthConfig
  pub token : String
  pub expires : ℤ

unfoldable pub new_api_client : String → OauthConfig → ApiClient
new_api_client base oauth = record {
  base_url = trim_right_char b'/' base;
  oauth = oauth;
  token = "";
  expires = zero_time;
}

-- What a request carries: nothing, the JSON text of a value, or the fields of a form.
pub data Content : Type 0 where
  no_content : Content
  json_content : Json → Content
  form_content : List (String × String) → Content

pub record HttpRequest : Type 0 where
  pub method : String
  pub url : String
  pub headers : List (String × String)
  pub content : Content

-- An error of the client, or a status, the first JSON value of the body, and the text that the first
-- 2048 bytes of the body hold.
pub data HttpAnswer : Type 0 where
  unreachable : String → HttpAnswer
  answered : ℕ → Payload → String → HttpAnswer

-- `url_error` is the error for a URL, none for a good one. `now` is the time at which the token's age
-- is read, and `granted_at` the time at which its end is set. `basic` makes a header of SetBasicAuth.
pub record Net : Type 0 where
  pub url_error : String → Option String
  pub send : HttpRequest → HttpAnswer
  pub basic : String → String → String
  pub now : ℤ
  pub granted_at : ℤ

pub record TokenResponse : Type 0 where
  pub access_token : String
  pub expires_in : ℤ
  pub error_description : String

infixl 5 ◌>>=◌
abbrev pub ◌>>=◌ {ℓ κ} : {A : Type ℓ} {B : Type κ} → Option A → (A → Option B) → Option B
none >>= f = none
some a >>= f = f a

set_token_field : String → Json → TokenResponse → Option TokenResponse
set_token_field k v r =
    if key_is "access_token" k
    then Option.map (λ x. record r { access_token = x }) (as_string v r.access_token)
    else if key_is "expires_in" k
    then Option.map (λ x. record r { expires_in = x }) (as_int64 v r.expires_in)
    else if key_is "error_description" k
    then Option.map (λ x. record r { error_description = x }) (as_string v r.error_description)
    else some r

set_token_fields : Fields → TokenResponse → Option TokenResponse
set_token_fields end r = some r
set_token_fields (field k v fs) r = do r' ← set_token_field k v r; set_token_fields fs r'

abbrev no_token : TokenResponse
no_token = record { access_token = ""; expires_in = pos 0; error_description = "" }

unfoldable pub as_token_response : Payload → Option TokenResponse
unfolding set_token_fields set_token_field
as_token_response (malformed text) = none
as_token_response (json null) = some no_token
as_token_response (json (obj fs)) = set_token_fields fs no_token
as_token_response (json _) = none

abbrev pub half_minute : ℤ
half_minute = pos (30 * 1000000000)

-- The difference of two times stops at the ends of int64, which does not change the test.
unfoldable pub is_cached : ℤ → ApiClient → Bool
is_cached now c = not (str_eq c.token "") && ltb_ℤ (now +ℤ half_minute) c.expires

-- time.Duration(ExpiresIn) * time.Second wraps around.
unfoldable pub expiry : ℤ → ℤ → ℤ
expiry now seconds = now +ℤ wrap_int64 (scale 1000000000 seconds)

-- What one call of the client leaves: its state, the requests it has sent, and its result.
pub record Exchange {ℓ} (A : Type ℓ) : Type ℓ where
  pub client : ApiClient
  pub sent : List HttpRequest
  pub result : Result A

module _ (net : Net) where
  unfoldable pub token_request : ApiClient → HttpRequest
  token_request c = record {
    method = "POST";
    url = c.oauth.token_url;
    headers =
        ("Content-Type", "application/x-www-form-urlencoded")
        ∷ ("User-Agent", "noapp-traffic-simulator/1.0")
        ∷ ("Authorization", net.basic c.oauth.client_id c.oauth.client_secret)
        ∷ [];
    content = form_content (("grant_type", "client_credentials") ∷ []);
  }

  unfoldable pub take_token : ApiClient → HttpAnswer → ApiClient × Result String
  take_token c (unreachable text) = (c, err (no_response text))
  take_token c (answered status body text) = elim (as_token_response body) [
    | none ↦ (c, err decode_token_response)
    | some r ↦
        if not (status == 200) || str_eq r.access_token ""
        then (c, err (token_endpoint status r.error_description))
        else (
          record c { token = r.access_token; expires = expiry net.granted_at r.expires_in },
          ok r.access_token,
        )
  ]

  unfoldable pub access_token : ApiClient → Exchange String
  access_token c =
      if is_cached net.now c
      then record { client = c; sent = []; result = ok c.token }
      else elim (net.url_error c.oauth.token_url) [
        | some text ↦ record { client = c; sent = []; result = err (bad_request text) }
        | none ↦
            let taken = take_token c (net.send (token_request c)) in
            record { client = taken.0; sent = token_request c ∷ []; result = taken.1 }
      ]

-- The request before a token is set.
unfoldable pub plain_request : ApiClient → String → String → Content → HttpRequest
plain_request c method path content = record {
  method = method;
  url = text_append c.base_url path;
  headers =
      (elim content [ no_content ↦ [] | _ ↦ ("Content-Type", "application/json") ∷ [] ])
      ++ ("User-Agent", "noapp-traffic-simulator/1.0") ∷ ("X-Traffic-Source", "simulator") ∷ [];
  content = content;
}

unfoldable pub with_bearer : String → HttpRequest → HttpRequest
with_bearer token r = record r {
  headers = r.headers ++ ("Authorization", text_append "Bearer " token) ∷ [];
}

unfoldable pub needs_token : ApiClient → String → Bool
needs_token c path = not (str_eq path "/api/health") && not (str_eq c.oauth.token_url "")

module _ {ℓ} {A : Type ℓ} (method path : String) (read : Payload → Option A) where
  -- The answer to the request: `read` decodes the result, or gives a value if none is wanted.
  unfoldable pub receive : HttpAnswer → Result A
  receive (unreachable text) = err (no_response text)
  receive (answered status body text) =
      if ltb status 200 || leb 300 status
      then err (returned method path status (trim_space text))
      else elim (read body) [ none ↦ err (decode_response method path) | some a ↦ ok a ]

  unfoldable pub send_with : Net → HttpRequest → Exchange String → Exchange A
  send_with net r x = elim (x.result) [
    | err e ↦ record { client = x.client; sent = x.sent; result = err (no_access_token e) }
    | ok token ↦
        let s = with_bearer token r in
        record { client = x.client; sent = x.sent ++ s ∷ []; result = receive (net.send s) }
  ]

  -- The method `do`. The values that it is given always encode.
  unfoldable pub do_request : Net → Content → ApiClient → Exchange A
  do_request net content c =
      let r = plain_request c method path content in
      elim (net.url_error r.url) [
        | some text ↦ record { client = c; sent = []; result = err (bad_request text) }
        | none ↦
            if needs_token c path
            then send_with net r (access_token net c)
            else record { client = c; sent = r ∷ []; result = receive (net.send r) }
      ]
