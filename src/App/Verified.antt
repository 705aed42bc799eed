-- ===== src/App/Verified.antt =====
-- internal/app/server.go with internal/auth/verifier.go: the server with the verifier behind it. A
-- request to a protected path calls the verifier once, which keeps its keys for the next one.
use noapp.Prelude.{
  arith, not, refl, Bool-cases, String, Bool, true, ◌||◌, ◌&&◌, Option, split_at, if◌then◌else◌,
  ◌≡◌, ◌⊎◌, inl, inr,
}
use noapp.Runtime.{Runtime, ok}
use noapp.Auth.{Principal, Verifier, has_role}
use noapp.Auth.Verify
use noapp.Auth.Verify.{verify}
use noapp.Auth.Sound.{Accepted, verified, verified-ok, verified-Accepted}
use noapp.App.{Reply, Calls}
use noapp.App.Handlers.{Orders}
use noapp.App.Server.{
  Request, World, AuthUiConfig, is_get, is_open, is_auth_config, is_api, serve_api, serve,
}
use noapp.App.Access.{serve_api-Access}

-- The requests that the mux serves without a token.
abbrev needs_no_token : Request → Bool
needs_no_token r =
    not (is_api r.path)
    || (is_get r.method
        && (is_open "health" (split_at b'/' r.path) || is_auth_config (split_at b'/' r.path)))

-- The verifier and the world after a request, with its reply.
pub record Served : Type 0 where
  pub verifier : Verifier
  pub world : World
  pub reply : Reply

module _ (rt : Runtime) (orders : Orders) (ui : AuthUiConfig) (calls : Calls) (ping : Option String)
    (files : Request → Reply) (tokens : Verify.Calls) where
  unfoldable pub serve_verified : Request → Verifier → World → Served
  serve_verified r v w =
      let end = serve rt orders ui (verified tokens v) calls ping files r w in
      record {
        verifier = if needs_no_token r then v else (verify tokens r.authorization v).0;
        world = end.0;
        reply = end.1;
      }

  without_token :
      (r : Request) (v : Verifier) (w : World)
      → is_api r.path ≡ true
      → needs_no_token r ≡ true
      → (serve_api rt orders ui (verified tokens v) calls ping r w).0.db ≡ w.db
  unfolding serve_api
  without_token r v w api free =
      let segments = split_at b'/' r.path in
      elim (Bool-cases (is_get r.method && is_open "health" segments)) [
        | inl h ↦ rw (h, serve_api) refl
        | inr h ↦ elim (Bool-cases (is_get r.method && is_auth_config segments)) [
          | inl c ↦ rw (h, c, serve_api) refl
          | inr c ↦ absurd (ground arith)
        ]
      ]

  -- A request changes the database only if its path is under /api/ and the call of `verify` with its
  -- Authorization header, by the verifier as it is, returns a principal, who has the role
  -- noapp-editor. Then the header has a bearer token whose header names RS256 and a key that the
  -- verifier holds after this call; that key signs the token; and its claims, of which the principal
  -- is made, name the issuer and the audience, a subject, and a span of validity that the clock is
  -- in. The verifier after the request is the one after this call.
  pub serve_verified-Accepted :
      (r : Request) (v : Verifier) (w : World)
      → let end = serve_verified r v w in
        (end.world.db ≡ w.db)
        ⊎ ((is_api r.path ≡ true)
            × ((p : Principal) × (verify tokens r.authorization v ≡ (end.verifier, ok p))
                × Accepted tokens r.authorization v end.verifier p
                × (has_role p "noapp-editor" ≡ true)))
  unfolding serve_verified serve
  serve_verified-Accepted r v w = elim (Bool-cases (is_api r.path)) [
    | inr other ↦ rw other (inl refl)
    | inl api ↦ elim (Bool-cases (needs_no_token r)) [
      | inl free ↦ inl (rw api (without_token r v w api free))
      | inr asks ↦
          rw (asks, api)
            (elim (serve_api-Access rt orders ui (verified tokens v) calls ping r w) [
              | inl same ↦ inl same
              | inr (p, found, role) ↦ inr (
                refl,
                (
                  p,
                  verified-ok tokens v r.authorization p found,
                  verified-Accepted tokens v r.authorization p found,
                  role,
                ),
              )
            ])
    ]
  ]
