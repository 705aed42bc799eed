-- ===== src/Simulator/Client/Tokens.antt =====
-- internal/simulator/client.go: which tokens the client sends.
use Prim.Native.String.{◌++◌ as text_append}
use noapp.Prelude.{
  String, true, false, ◌&&◌, not, Option, none, some, List, [], ◌∷◌, ◌++◌, ℤ, ◌+ℤ◌, ◌<ℤ◌, ◌==◌,
  str_eq, if◌then◌else◌, ◌≡◌, refl, ◌⊎◌, inl, inr, arith, eq_iff, All-weaken, All-append, All, In,
  Bool-cases, is_none,
}
use noapp.Json.{Payload}
use noapp.Runtime.{Error, Result, ok, err}
use noapp.Simulator.Client.{
  OauthConfig, ApiClient, new_api_client, Content, HttpRequest, HttpAnswer, unreachable, answered,
  Net, as_token_response, is_cached, half_minute, expiry, Exchange, token_request, take_token,
  access_token, plain_request, with_bearer, needs_token, send_with, do_request,
}

-- A token that an endpoint issued, with the time at which it ends.
abbrev pub Grant : Type 0
Grant = String × ℤ

-- What an answer of the endpoint grants: the token of a reply with status 200, unless it is empty.
abbrev granted_by : Net → HttpAnswer → List Grant
granted_by net (unreachable text) = []
granted_by net (answered status body text) = elim (as_token_response body) [
  | none ↦ []
  | some r ↦
      if status == 200 && not (str_eq r.access_token "")
      then (r.access_token, expiry net.granted_at r.expires_in) ∷ []
      else []
]

-- What the endpoint grants in a call, if it is asked.
abbrev issued : Net → ApiClient → List Grant
issued net c =
    if not (is_cached net.now c) && is_none (net.url_error c.oauth.token_url)
    then granted_by net (net.send (token_request net c))
    else []

abbrev pub grants : Net → String → ApiClient → List Grant
grants net path c =
    if is_none (net.url_error (text_append c.base_url path)) && needs_token c path
    then issued net c
    else []

abbrev pub Holds : List Grant → ApiClient → Type 0
Holds gs c = (c.token ≡ "") ⊎ In (c.token, c.expires) gs

-- Calls one after the other, with what the endpoint has granted before.
pub data Reach (base : String) (oauth : OauthConfig) : ApiClient → List Grant → Type 1 where
  created : Reach base oauth (new_api_client base oauth) []
  called :
      {c : ApiClient} {gs : List Grant} {A : Type 0} (method path : String)
      (read : Payload → Option A) (net : Net) (content : Content)
      → Reach base oauth c gs
      → Reach base oauth
          (do_request method path read net content c).client
          (grants net path c ++ gs)

-- A token of that end: granted, with more than half a minute left, or new.
abbrev pub Usable : Net → ApiClient → List Grant → Grant → Type 0
Usable net c gs g =
    (str_eq g.0 "" ≡ false) × ((In g gs × ((net.now +ℤ half_minute) <ℤ g.1)) ⊎ In g (issued net c))

take_token-ok :
    (net : Net) (c : ApiClient) (answer : HttpAnswer) (t : String)
    → (take_token net c answer).1 ≡ ok t
    → (str_eq t "" ≡ false)
      × (t ≡ (take_token net c answer).0.token)
      × In (t, (take_token net c answer).0.expires) (granted_by net answer)
unfolding take_token
take_token-ok net c (unreachable text) t h = absurd (cc)
take_token-ok net c (answered status body text) t h = ground arith

take_token-Holds :
    (net : Net) (c : ApiClient) (gs : List Grant) (answer : HttpAnswer)
    → Holds gs c
    → Holds (granted_by net answer ++ gs) (take_token net c answer).0
unfolding take_token
take_token-Holds net c gs (unreachable text) h = h
take_token-Holds net c gs (answered status body text) h = ground (arith)

access_token-Holds :
    (net : Net) (c : ApiClient) (gs : List Grant)
    → Holds gs c
    → Holds (issued net c ++ gs) (access_token net c).client
unfolding access_token
access_token-Holds net c gs h =
    ground (arith, take_token-Holds net c gs (net.send (token_request net c)) h)

access_token-sent :
    (net : Net) (c : ApiClient) → All (λ r. r ≡ token_request net c) (access_token net c).sent
unfolding access_token
access_token-sent net c = ground arith

cached-Usable :
    (net : Net) (c : ApiClient) (gs : List Grant)
    → Holds gs c
    → is_cached net.now c ≡ true
    → Usable net c gs (c.token, c.expires)
unfolding is_cached
cached-Usable net c gs (inl none_yet) hit = absurd (ground (arith, eq_iff c.token ""))
cached-Usable net c gs (inr known) hit = ground arith

access_token-Usable :
    (net : Net) (c : ApiClient) (gs : List Grant) (t : String)
    → Holds gs c
    → (access_token net c).result ≡ ok t
    → Usable net c gs (t, (access_token net c).client.expires)
unfolding access_token
access_token-Usable net c gs t h e = elim (Bool-cases (is_cached net.now c)) [
  | inl hit ↦
      let same : c.token ≡ t = ground arith in
      let stays : (access_token net c).client ≡ c = ground arith in
      rw (stays, ← same) (cached-Usable net c gs h hit)
  | inr miss ↦ ground (arith, take_token-ok net c (net.send (token_request net c)) t)
]

send_with-client :
    {A : Type 0} (method path : String) (read : Payload → Option A) (net : Net) (r : HttpRequest)
    (x : Exchange String)
    → (send_with method path read net r x).client ≡ x.client
unfolding send_with
send_with-client method path read net r x = ground arith

do_request-Holds :
    {A : Type 0} (method path : String) (read : Payload → Option A) (net : Net) (content : Content)
    (c : ApiClient) (gs : List Grant)
    → Holds gs c
    → Holds (grants net path c ++ gs) (do_request method path read net content c).client
unfolding do_request plain_request
do_request-Holds method path read net content c gs h = ground (
  arith,
  access_token-Holds net c gs h,
  send_with-client method path read net (plain_request c method path content) (access_token net c),
)

pub Reach-Holds :
    {base : String} {oauth : OauthConfig} {c : ApiClient} {gs : List Grant}
    → Reach base oauth c gs
    → Holds gs c
unfolding new_api_client
Reach-Holds created = inl refl
Reach-Holds (called {c} {gs} method path read net content r) =
    do_request-Holds method path read net content c gs (Reach-Holds r)

-- What the client may send in a call: the request for a token; the call without a token, where none
-- is needed; and the call with a usable token.
abbrev pub Proper : Net → ApiClient → List Grant → String → HttpRequest → HttpRequest → Type 0
Proper net c gs path plain r =
    (r ≡ token_request net c)
    ⊎ ((needs_token c path ≡ false) × (r ≡ plain))
    ⊎ ((needs_token c path ≡ true)
        × (t : String) × (expires : ℤ) × Usable net c gs (t, expires)
        × (r ≡ with_bearer t plain))

Result-cases : {A : Type 0} (x : Result A) → ((e : Error) × (x ≡ err e)) ⊎ ((a : A) × (x ≡ ok a))
Result-cases (ok a) = inr (a, refl)
Result-cases (err e) = inl (e, refl)

send_with-Proper :
    {A : Type 0} (method path : String) (read : Payload → Option A) (net : Net) (c : ApiClient)
    (gs : List Grant) (plain : HttpRequest) (x : Exchange String)
    → needs_token c path ≡ true
    → All (λ r. r ≡ token_request net c) x.sent
    → ((t : String) → x.result ≡ ok t → Usable net c gs (t, x.client.expires))
    → All (Proper net c gs path plain) (send_with method path read net plain x).sent
unfolding send_with
send_with-Proper method path read net c gs plain x needs all usable = elim (Result-cases x.result) [
  | inl (e, failed) ↦ rw failed (All-weaken _ _ x.sent (λ r e. inl e) all)
  | inr (t, got) ↦ rw got (
      All-append _ x.sent (with_bearer t plain ∷ []) (All-weaken _ _ x.sent (λ r e. inl e) all)
        (inr (inr (needs, t, x.client.expires, usable t got, refl)), tt))
]

-- In each state that calls lead to from a new client, a call sends nothing but these requests: the
-- request for a token; to /api/health, or with no token URL, the call as it is; and else the call with
-- a Bearer token. Such a token is not empty and the endpoint has granted it: in an earlier call, with
-- an end more than half a minute away, or in this one, by a reply of status 200.
pub do_request-Proper :
    {A : Type 0} {base : String} {oauth : OauthConfig} {c : ApiClient} {gs : List Grant}
    (method path : String) (read : Payload → Option A) (net : Net) (content : Content)
    → Reach base oauth c gs
    → All
        (Proper net c gs path (plain_request c method path content))
        (do_request method path read net content c).sent
unfolding do_request plain_request
do_request-Proper {c} {gs} method path read net content reach =
    elim (Bool-cases (needs_token c path)) [
      | inl needs ↦ ground (
        arith,
        send_with-Proper method path read net c gs (plain_request c method path content)
            (access_token net c) needs (access_token-sent net c)
            (λ t. access_token-Usable net c gs t (Reach-Holds reach)),
      )
      | inr free ↦ ground arith
    ]
